-- ===== src/Connect/Artifacts.antt =====
-- internal/connect/connect.go: the files that a successful `Prepare` leaves behind.
use dev_connect.Prelude.{false, some, ◌≡◌, ◌≢◌, refl, sym, ap, ◌∙◌, arith, is_nil, true}
use dev_connect.Text.{Text, codes, equal}
use dev_connect.Text.Paths.Names.{IsName, join_path_ne}
use dev_connect.Result.{
  Error, Result, ok, err, fail_if, wrap, allocate_port_failed, session_dir_required,
}
use dev_connect.World.{World, Call}
use dev_connect.World.Steps.{lift}
use dev_connect.World.Frame.{update_other, >>=-eq-ok, lift-eq-ok, pure-eq-ok}
use dev_connect.Port.{Allocation}
use dev_connect.SshConfig.{render_config, file_mode}
use dev_connect.SshConfig.Write.{session_files, write_session_files, known_hosts_line}
use dev_connect.SshConfig.Write.Effects.{
  prepared, prepared_files, write_session_files_ok, ssh_config-IsName, known_hosts-IsName,
}
use dev_connect.Session.Store.{Codec, save, load, path, has_utf8}
use dev_connect.Session.Persistence.{save_ok, load-save}
use dev_connect.Connect.{
  Options, Prepared, Resolved, resolve, prepare, ssh_options, ssh_dir_of, new_state, prepared_of,
}

wrap-eq-ok : {A : Type 0} (f : Error → Error) (r : Result A) {a : A} → wrap f r ≡ ok a → r ≡ ok a
wrap-eq-ok f (ok a) h = h
wrap-eq-ok f (err e) h = cc

session_json-IsName : IsName (codes "session.json")
unfolding equal
session_json-IsName = record {
  no_slash = omega arith;
  not_empty = refl;
  not_dot = refl;
  not_dots = refl;
}

module _ (c : Codec) (o : Options) where
  -- Everything that is decided before the files are written, and what they then are.
  pub record Success (w : World) (p : Prepared) (w' : World) : Type 0 where
    pub resolved : Resolved
    pub allocation : Allocation
    pub was_resolved : resolve o.config o.target_name o.gateway_name ≡ ok resolved
    pub was_allocated : o.allocation ≡ ok allocation
    pub result :
        p ≡ prepared_of o resolved allocation (session_files (ssh_options o resolved allocation))
    pub saved :
        save c o.session_dir p.state (prepared (ssh_options o resolved allocation) w) ≡ (ok tt, w')

  pub prepare-Success :
      (w : World) {p : Prepared} {w' : World} → prepare c o w ≡ (ok p, w') → Success w p w'
  unfolding prepare prepared_of
  prepare-Success w {p} {w'} h =
      let (r, w0, resolved, h1) =
        >>=-eq-ok (lift (resolve o.config o.target_name o.gateway_name)) _ w h in
      let (a, w1, allocated, h2) =
        >>=-eq-ok (lift (wrap allocate_port_failed o.allocation)) _ w0 h1 in
      let (_, w2, named, h3) =
        >>=-eq-ok (lift (fail_if (is_nil (ssh_dir_of o)) session_dir_required)) _ w1 h2 in
      let (files, w3, written, h4) = >>=-eq-ok (write_session_files (ssh_options o r a)) _ w2 h3 in
      let (_, w4, stored, h5) = >>=-eq-ok (save c o.session_dir (new_state o r a files)) _ w3 h4 in
      let so = ssh_options o r a in
      let (is_resolved, e0) =
        lift-eq-ok (resolve o.config o.target_name o.gateway_name) w resolved in
      let (is_allocated, e1) = lift-eq-ok (wrap allocate_port_failed o.allocation) w0 allocated in
      let (_, e2) = lift-eq-ok (fail_if (is_nil (ssh_dir_of o)) session_dir_required) w1 named in
      let (_, same_files, e3) = write_session_files_ok so w2 written in
      let (same_p, e4) = pure-eq-ok (prepared_of o r a files) w4 h5 in
      record {
        resolved = r;
        allocation = a;
        was_resolved = is_resolved;
        was_allocated = wrap-eq-ok allocate_port_failed o.allocation is_allocated;
        result = same_p ∙ ap (λ f. prepared_of o r a f) same_files;
        saved =
            ap (λ (x : Prepared). save c o.session_dir x.state (prepared so w)) same_p
            ∙ ap (λ (x : World). save c o.session_dir (new_state o r a files) x)
                (sym (e3 ∙ ap (λ (x : World). prepared so x) (e2 ∙ e1 ∙ e0)))
            ∙ stored
            ∙ (λ i. (ok tt, sym e4 i));
      }

  state_path_ne :
      (r : Resolved) (a : Allocation)
      → (path o.session_dir ≢ (session_files (ssh_options o r a)).config_path)
        × (path o.session_dir ≢ (session_files (ssh_options o r a)).known_hosts_path)
  unfolding path session_files
  state_path_ne r a = (
    join_path_ne o.session_dir (ssh_options o r a).dir (codes "session.json") (codes "ssh_config")
        session_json-IsName ssh_config-IsName (omega arith),
    join_path_ne o.session_dir (ssh_options o r a).dir (codes "session.json") (codes "known_hosts")
        session_json-IsName known_hosts-IsName (omega arith),
  )

  pub prepare_ok :
      (w : World) {p : Prepared} {w' : World}
      → prepare c o w ≡ (ok p, w')
      → has_utf8 p.state ≡ true
      → w.refuses Call.to_read (path o.session_dir) ≡ false
      → (s : Success w p w') × (load c o.session_dir w' ≡ (ok p.state, w'))
        × (w'.file (session_files (ssh_options o s.resolved s.allocation)).known_hosts_path
            ≡ some (record {
              content = known_hosts_line (ssh_options o s.resolved s.allocation);
              mode = file_mode;
            }))
        × (w'.file (session_files (ssh_options o s.resolved s.allocation)).config_path
            ≡ some (record {
              content =
                  render_config
                    (ssh_options o s.resolved s.allocation)
                    (session_files (ssh_options o s.resolved s.allocation)).known_hosts_path;
              mode = file_mode;
            }))
  prepare_ok w {p} {w'} h utf8 readable =
      let s = prepare-Success w h in
      let so = ssh_options o s.resolved s.allocation in
      let (_, _, _, ew) = save_ok c o.session_dir p.state (prepared so w) s.saved in
      let (hosts, config) = prepared_files so w in
      let (config_ne, hosts_ne) = state_path_ne s.resolved s.allocation in
      let kept = λ (q : Text) (ne : path o.session_dir ≢ q).
        ap (λ (x : World). x.file q) ew
        ∙ update_other (prepared so w).file (path o.session_dir) q _ ne in
      (
        s,
        load-save c o.session_dir p.state (prepared so w) s.saved utf8 readable,
        kept (session_files so).known_hosts_path hosts_ne ∙ hosts,
        kept (session_files so).config_path config_ne ∙ config,
      )
