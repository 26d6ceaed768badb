-- ===== src/Kubectl/Flags.antt =====
-- internal/kubectl/command.go: kubectl reads the flags back that the commands were built from.
use dev_connect.Prelude.{List, [], ◌∷◌, ◌++◌, append_assoc, ◌≡◌, refl, ap, ◌∙◌, if◌then◌else◌}
use dev_connect.Text.{Text, codes, equal}
use dev_connect.Text.Numbers.{decimal_int}
use dev_connect.Kubectl.{base_args, flag, PortForwardOptions, port_forward_service_command}

-- The global flags of a command line, an empty text for one that is not given, and the rest.
pub record Flags : Type 0 where
  pub kubeconfig : Text
  pub context_name : Text
  pub namespace : Text
  pub rest : List Text

-- Flags that take a value, as long as there are any.
pub read_flags : Flags → List Text → Flags
read_flags f [] = record f { rest = [] }
read_flags f (name ∷ []) = record f { rest = name ∷ [] }
read_flags f (name ∷ value ∷ more) =
    let kubeconfig = read_flags (record f { kubeconfig = value }) more in
    let context = read_flags (record f { context_name = value }) more in
    let namespace = read_flags (record f { namespace = value }) more in
    if equal name (codes "--kubeconfig")
    then kubeconfig
    else if equal name (codes "--context")
    then context
    else if equal name (codes "-n")
    then namespace
    else record f { rest = name ∷ value ∷ more }

abbrev pub no_flags : Flags
no_flags = record { kubeconfig = []; context_name = []; namespace = []; rest = [] }

abbrev flags : Text → Text → Text → List Text → Flags
flags k c n r = record { kubeconfig = k; context_name = c; namespace = n; rest = r }

module _ (v : Text) (more : List Text) where
  read_kubeconfig :
      (c n : Text) (r : List Text)
      → read_flags (flags [] c n r) (flag (codes "--kubeconfig") v ++ more)
        ≡ read_flags (flags v c n r) more
  unfolding read_flags equal
  read_kubeconfig c n r =
      elim v
        as (λ x.
          read_flags (flags [] c n r) (flag (codes "--kubeconfig") x ++ more)
          ≡ read_flags (flags x c n r) more) [ [] ↦ refl | a ∷ b ↦ refl ]

  read_context :
      (k n : Text) (r : List Text)
      → read_flags (flags k [] n r) (flag (codes "--context") v ++ more)
        ≡ read_flags (flags k v n r) more
  unfolding read_flags equal
  read_context k n r =
      elim v
        as (λ x.
          read_flags (flags k [] n r) (flag (codes "--context") x ++ more)
          ≡ read_flags (flags k x n r) more) [ [] ↦ refl | a ∷ b ↦ refl ]

  read_namespace :
      (k c : Text) (r : List Text)
      → read_flags (flags k c [] r) (flag (codes "-n") v ++ more) ≡ read_flags (flags k c v r) more
  unfolding read_flags equal
  read_namespace k c r =
      elim v
        as (λ x.
          read_flags (flags k c [] r) (flag (codes "-n") x ++ more)
          ≡ read_flags (flags k c x r) more) [ [] ↦ refl | a ∷ b ↦ refl ]

read_flags-base_args :
    (k c n : Text) (more : List Text)
    → read_flags no_flags (base_args k c n ++ more) ≡ read_flags (flags k c n []) more
unfolding base_args
read_flags-base_args k c n more =
    ap (read_flags no_flags) (
      append_assoc (flag (codes "--kubeconfig") k) _ more
      ∙ ap (λ t. flag (codes "--kubeconfig") k ++ t)
          (append_assoc (flag (codes "--context") c) (flag (codes "-n") n) more))
    ∙ read_kubeconfig k _ [] [] []
    ∙ read_context c _ k [] []
    ∙ read_namespace n more k c []

-- The flags of a port-forward are read back as they were given, an empty one as missing, and what
-- is behind them is the port-forward of the service, from the local port to the remote one.
pub read_flags-port_forward_service_command :
    (o : PortForwardOptions)
    → read_flags no_flags (port_forward_service_command o).args ≡ record {
      kubeconfig = o.kubeconfig;
      context_name = o.context_name;
      namespace = o.namespace;
      rest =
          codes "port-forward"
          ∷ (codes "service/" ++ o.service)
          ∷ (decimal_int o.local_port ++ b':' ∷ decimal_int o.remote_port)
          ∷ [];
    }
unfolding port_forward_service_command
read_flags-port_forward_service_command o =
    read_flags-base_args o.kubeconfig o.context_name o.namespace _ ∙ unfold read_flags equal in refl
