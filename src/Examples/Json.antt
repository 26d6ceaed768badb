-- ===== src/Examples/Json.antt =====
-- An encoding of a session's state from which it can be read back: each field with its length
-- before it.
use dev_connect.Prelude.{
  ℕ, zero, suc, Bool, true, false, Option, none, some, List, [], ◌∷◌, ◌++◌, ◌≡◌, refl, sym, ap, ◌∙◌,
  ℤ, pos, negsuc, take, drop, length, take-length, drop-length,
}
use dev_connect.Text.{Text}
use dev_connect.Session.{State}
use dev_connect.Session.Store.{Codec, visible}

abbrev frames : List Text → Text
frames [] = []
frames (t ∷ ts) = length t ∷ (t ++ frames ts)

abbrev unframe : ℕ → Text → List Text
unframe zero s = []
unframe (suc n) [] = []
unframe (suc n) (k ∷ s) = take k s ∷ unframe n (drop k s)

pub unframe-frames : (ts : List Text) → unframe (length ts) (frames ts) ≡ ts
unframe-frames [] = refl
unframe-frames (t ∷ ts) =
    rw (take-length t (frames ts), drop-length t (frames ts), unframe-frames ts) refl

abbrev of_int : ℤ → Text
of_int (pos n) = 0 ∷ n ∷ []
of_int (negsuc n) = 1 ∷ n ∷ []

abbrev of_bool : Bool → Text
of_bool false = []
of_bool true = 1 ∷ []

abbrev to_int : Text → ℤ
to_int (zero ∷ n ∷ _) = pos n
to_int (suc _ ∷ n ∷ _) = negsuc n
to_int _ = pos 0

abbrev to_bool : Text → Bool
to_bool [] = false
to_bool (_ ∷ _) = true

to_int-of_int : (i : ℤ) → to_int (of_int i) ≡ i
to_int-of_int (pos n) = refl
to_int-of_int (negsuc n) = refl

to_bool-of_bool : (b : Bool) → to_bool (of_bool b) ≡ b
to_bool-of_bool false = refl
to_bool-of_bool true = refl

abbrev to_time : Text → ℕ
to_time [] = 0
to_time (n ∷ _) = n

abbrev fields : State → List Text
fields s =
    s.session_id
    ∷ s.target
    ∷ s.gateway
    ∷ s.namespace
    ∷ s.kubernetes_context
    ∷ of_int s.local_port
    ∷ of_int s.port_forward_pid
    ∷ s.ssh_config_path
    ∷ s.known_hosts_path
    ∷ s.user_ssh_config_path
    ∷ s.vscode_user_data_dir
    ∷ (s.started_at ∷ [])
    ∷ of_bool s.reconnect
    ∷ []

abbrev of_fields : List Text → Option State
of_fields (a ∷ b ∷ c ∷ d ∷ e ∷ f ∷ g ∷ h ∷ i ∷ j ∷ k ∷ l ∷ m ∷ []) = some (record {
  session_id = a;
  target = b;
  gateway = c;
  namespace = d;
  kubernetes_context = e;
  local_port = to_int f;
  port_forward_pid = to_int g;
  ssh_config_path = h;
  known_hosts_path = i;
  user_ssh_config_path = j;
  vscode_user_data_dir = k;
  started_at = to_time l;
  reconnect = to_bool m;
  ssh_private_key = [];
  password = [];
  kubernetes_token = [];
})
of_fields _ = none

pub of_fields-fields : (s : State) → of_fields (fields s) ≡ some (visible s)
of_fields-fields s =
    rw (to_int-of_int s.local_port, to_int-of_int s.port_forward_pid, to_bool-of_bool s.reconnect)
      refl

pub some-injective : {a b : Text} → some a ≡ some b → a ≡ b
some-injective h = cc

abbrev pub codec : Codec
codec = record {
  encode = λ s. some (frames (fields s));
  decode = λ t. of_fields (unframe 13 t);
  decode-encode = λ s {t} e _.
      ap (λ x. of_fields (unframe 13 x)) (sym (some-injective e))
      ∙ ap of_fields (unframe-frames (fields s))
      ∙ of_fields-fields s;
}
