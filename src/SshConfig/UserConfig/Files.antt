-- ===== src/SshConfig/UserConfig/Files.antt =====
-- internal/sshconfig/userconfig.go: what happens to the user's file.
use dev_connect.Prelude.{
  Bool, true, false, ◌||◌, some, ◌≡◌, sym, ap, ◌∙◌, arith, if◌then◌else◌, is_nil, inl, inr,
  Bool-cases,
}
use dev_connect.Text.{Text, trim_left, is_newline, equal, equal_iff}
use dev_connect.Text.Paths.{dir_of}
use dev_connect.Result.{ok, mkdir_failed, write_failed, chmod_failed}
use dev_connect.World.{World, read_file, mkdir_all, update_self}
use dev_connect.World.Steps.{act, lift, pure}
use dev_connect.World.Frame.{
  put, put-put, write-chmod-eq-ok, >>=-eq-ok, lift-eq-ok, mkdir_all-eq-ok,
}
use dev_connect.SshConfig.{file_mode}
use dev_connect.SshConfig.UserConfig.{
  UserConfigOptions, remove_managed_block, render_managed_block, prepend_managed_block,
  upsert_managed_block, remove_block_from_file, write_user_config, read_optional, optional,
  validate_user_config_options,
}
use dev_connect.SshConfig.UserConfig.RoundTrip.{HasNoHash, remove-prepend-remove}

write_user_config_ok :
    (p content : Text) (w : World) {t : Unit {0}} {w' : World}
    → write_user_config p content w ≡ (ok t, w')
    → w' ≡ put w p content file_mode
unfolding write_user_config
write_user_config_ok p content w h =
    let (_, u, made, h1) = >>=-eq-ok (act (λ x. mkdir_all x (dir_of p)) (mkdir_failed p)) _ w h in
    write-chmod-eq-ok p content file_mode (write_failed p) (chmod_failed p) u h1
    ∙ ap (λ (x : World). put x p content file_mode)
        (mkdir_all-eq-ok (dir_of p) (mkdir_failed p) w made)

read_optional-eq-ok :
    (p : Text) (w : World) {c : Text} {u : World}
    → read_optional p w ≡ (ok c, u)
    → (optional p (read_file w p) ≡ ok c) × (u ≡ w)
unfolding read_optional
read_optional-eq-ok p w h = (λ i. (h i).0, λ i. (sym h i).1)

-- A successful `UpsertManagedBlock` was given valid options and has read the file, a missing one as
-- empty text. It has removed what the alias had there, put the new block in front, and left the
-- file with mode 0600; nothing else changes.
pub upsert_managed_block_ok :
    (o : UserConfigOptions) (w : World) {t : Unit {0}} {w' : World}
    → upsert_managed_block o w ≡ (ok t, w')
    → (content : Text) × (validate_user_config_options o ≡ ok tt)
      × (optional o.config_path (read_file w o.config_path) ≡ ok content)
      × (w'
          ≡ put w o.config_path
              (prepend_managed_block
                (remove_managed_block content o.alias)
                (render_managed_block o))
              file_mode)
unfolding upsert_managed_block
upsert_managed_block_ok o w h =
    let (_, w0, valid, h1) = >>=-eq-ok (lift (validate_user_config_options o)) _ w h in
    let (content, w1, was_read, h2) = >>=-eq-ok (read_optional o.config_path) _ w0 h1 in
    let (is_valid, same0) = lift-eq-ok (validate_user_config_options o) w valid in
    let (found, same1) = read_optional-eq-ok o.config_path w0 was_read in
    let updated =
      prepend_managed_block (remove_managed_block content o.alias) (render_managed_block o) in
    (
      content,
      is_valid,
      ap (λ x. optional o.config_path (read_file x o.config_path)) (sym same0) ∙ found,
      write_user_config_ok o.config_path updated w1 h2
          ∙ ap (λ (x : World). put x o.config_path updated file_mode) (same1 ∙ same0),
    )

replace_ok :
    (p updated : Text) (w : World) (b : Bool) {t : Unit {0}} {w' : World}
    → (if b then pure tt else write_user_config p updated) w ≡ (ok t, w')
    → w' ≡ (if b then w else put w p updated file_mode)
replace_ok p updated w true h = λ i. (sym h i).1
replace_ok p updated w false h = write_user_config_ok p updated w h

-- Where a path and an alias are given, a successful `RemoveManagedBlock` has read the file, and has
-- written what is left of it if that is another text.
pub remove_block_from_file_ok :
    (p alias : Text) (w : World) {t : Unit {0}} {w' : World}
    → (is_nil p || is_nil alias) ≡ false
    → remove_block_from_file p alias w ≡ (ok t, w')
    → (content : Text) × (optional p (read_file w p) ≡ ok content)
      × (w' ≡ (
          if equal (remove_managed_block content alias) content
          then w
          else put w p (remove_managed_block content alias) file_mode))
unfolding remove_block_from_file
remove_block_from_file_ok p alias w {t} {w'} given h =
    let h0 = rw given at h in
    let (content, u, was_read, h1) = >>=-eq-ok (read_optional p) _ w h0 in
    let (found, same) = read_optional-eq-ok p w was_read in
    let updated = remove_managed_block content alias in
    (
      content,
      found,
      replace_ok p updated u (equal updated content) h1
          ∙ ap (λ (x : World). if equal updated content then x else put x p updated file_mode) same,
    )

valid_names :
    (o : UserConfigOptions)
    → validate_user_config_options o ≡ ok tt
    → (is_nil o.config_path || is_nil o.alias) ≡ false
unfolding validate_user_config_options
valid_names o h = ground arith

-- A file that was just put is read as its text.
read_file-put :
    (w : World) (p c d : Text) → optional p (read_file (put w p c file_mode) p) ≡ ok d → d ≡ c
unfolding read_file
read_file-put w p c d h =
    ground (arith, update_self w.file p (some (record { content = c; mode = file_mode })))

replaced :
    (w u : World) (p c d updated : Text)
    → u ≡ put w p c file_mode
    → d ≡ c
    → (if equal updated d then u else put u p updated file_mode) ≡ put w p updated file_mode
replaced w u p c d updated eu ed = elim (Bool-cases (equal updated d)) [
  | inl e ↦ rw e (eu ∙ ap (λ x. put w p x file_mode) (sym ((equal_iff updated d).0 e ∙ ed)))
  | inr e ↦
      rw e (ap (λ (x : World). put x p updated file_mode) eu ∙ put-put w p c updated file_mode)
]

-- A block that `UpsertManagedBlock` has put into the user's file is taken out by
-- `RemoveManagedBlock`: the file has the text that it had without the alias, less the newlines at
-- its start, and every other file is as before. The values of the block hold no `#`.
pub remove-upsert :
    (o : UserConfigOptions) (w : World) {t t' : Unit {0}} {u w' : World}
    → HasNoHash o
    → upsert_managed_block o w ≡ (ok t, u)
    → remove_block_from_file o.config_path o.alias u ≡ (ok t', w')
    → (content : Text) × (optional o.config_path (read_file w o.config_path) ≡ ok content)
      × (w'
          ≡ put w o.config_path
              (trim_left is_newline (remove_managed_block content o.alias))
              file_mode)
remove-upsert o w {u} no_hash up down =
    let (content, is_valid, found, eu) = upsert_managed_block_ok o w up in
    let (content', found', ew) =
      remove_block_from_file_ok o.config_path o.alias u (valid_names o is_valid) down in
    let put_there =
      prepend_managed_block (remove_managed_block content o.alias) (render_managed_block o) in
    let was_put =
      read_file-put w o.config_path put_there content'
        (ap (λ x. optional o.config_path (read_file x o.config_path)) (sym eu) ∙ found') in
    (
      content,
      found,
      ew
          ∙ replaced w u o.config_path put_there content' (remove_managed_block content' o.alias) eu
              was_put
          ∙ ap (λ x. put w o.config_path x file_mode)
              (ap (λ x. remove_managed_block x o.alias) was_put
                ∙ remove-prepend-remove o content no_hash),
    )
