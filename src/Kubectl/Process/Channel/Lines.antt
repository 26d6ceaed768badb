-- ===== src/Kubectl/Process/Channel/Lines.antt =====
-- internal/kubectl/runner.go: the lines of one stream on their way through the channel.
use dev_connect.Prelude.{
  List, [], ◌∷◌, ◌++◌, append_assoc, append-nil, ◌≡◌, refl, sym, ap, ◌∙◌, subst,
}
use dev_connect.Text.{Text}
use dev_connect.Kubectl.Process.Pipes.{to_stdout, to_stderr}
use dev_connect.Kubectl.Process.Channel.{Sent, sent_line, sent_error}

-- Lines as the bytes that make them.
abbrev pub unlines : List Text → Text
unlines [] = []
unlines (t ∷ ts) = t ++ b'\n' ∷ unlines ts

-- The lines of one stream among some events.
abbrev pub of_stdout : List Sent → List Text
of_stdout [] = []
of_stdout (sent_line to_stdout t ∷ c) = t ∷ of_stdout c
of_stdout (sent_line to_stderr t ∷ c) = of_stdout c
of_stdout (sent_error stream ∷ c) = of_stdout c

abbrev pub of_stderr : List Sent → List Text
of_stderr [] = []
of_stderr (sent_line to_stdout t ∷ c) = of_stderr c
of_stderr (sent_line to_stderr t ∷ c) = t ∷ of_stderr c
of_stderr (sent_error stream ∷ c) = of_stderr c

pub unlines-append : (a b : List Text) → unlines (a ++ b) ≡ unlines a ++ unlines b
unlines-append [] b = refl
unlines-append (t ∷ a) b =
    ap (λ x. t ++ b'\n' ∷ x) (unlines-append a b)
    ∙ sym (append_assoc t (b'\n' ∷ unlines a) (unlines b))

pub of_stdout-append : (a b : List Sent) → of_stdout (a ++ b) ≡ of_stdout a ++ of_stdout b
of_stdout-append [] b = refl
of_stdout-append (sent_line to_stdout t ∷ a) b = ap (◌∷◌ t) (of_stdout-append a b)
of_stdout-append (sent_line to_stderr t ∷ a) b = of_stdout-append a b
of_stdout-append (sent_error stream ∷ a) b = of_stdout-append a b

pub of_stderr-append : (a b : List Sent) → of_stderr (a ++ b) ≡ of_stderr a ++ of_stderr b
of_stderr-append [] b = refl
of_stderr-append (sent_line to_stdout t ∷ a) b = of_stderr-append a b
of_stderr-append (sent_line to_stderr t ∷ a) b = ap (◌∷◌ t) (of_stderr-append a b)
of_stderr-append (sent_error stream ∷ a) b = of_stderr-append a b

-- Some lines are the first of all, in their order, the last of them whole or cut.
abbrev pub Begins : List Text → List Text → Type 0
Begins [] all = Unit
Begins (l ∷ ls) [] = ⊥
Begins (l ∷ []) (t ∷ ts) = (rest : Text) × (t ≡ l ++ rest)
Begins (l ∷ k ∷ ls) (t ∷ ts) = (t ≡ l) × Begins (k ∷ ls) ts

pub Begins-self : (all : List Text) → Begins all all
Begins-self [] = tt
Begins-self (t ∷ []) = ([], sym (append-nil t))
Begins-self (t ∷ u ∷ ts) = (refl, Begins-self (u ∷ ts))

-- Fewer lines begin it too.
pub Begins-fewer : (a b all : List Text) → Begins (a ++ b) all → Begins a all
Begins-fewer [] b all h = tt
Begins-fewer (l ∷ a) b [] h = absurd h
Begins-fewer (l ∷ []) [] (t ∷ ts) h = h
Begins-fewer (l ∷ []) (k ∷ b) (t ∷ ts) (e, h) = ([], e ∙ sym (append-nil l))
Begins-fewer (l ∷ k ∷ a) b (t ∷ ts) (e, h) = (e, Begins-fewer (k ∷ a) b ts h)

-- So do they with the next line cut.
pub Begins-cut :
    (a b all : List Text) (read unread : Text)
    → Begins (a ++ ((read ++ unread) ∷ b)) all
    → Begins (a ++ read ∷ []) all
Begins-cut [] b [] read unread h = absurd h
Begins-cut [] [] (t ∷ ts) read unread (rest, e) =
    (unread ++ rest, e ∙ append_assoc read unread rest)
Begins-cut [] (k ∷ b) (t ∷ ts) read unread (e, h) = (unread, e)
Begins-cut (l ∷ a) b [] read unread h = absurd h
Begins-cut (l ∷ []) b (t ∷ ts) read unread (e, h) = (e, Begins-cut [] b ts read unread h)
Begins-cut (l ∷ k ∷ a) b (t ∷ ts) read unread (e, h) = (e, Begins-cut (k ∷ a) b ts read unread h)

-- The lines of a stream: those that were taken, those on the way, and those that are left are the
-- first of all that the process writes.
abbrev pub InOrder : List Text → List Text → List Text → List Text → Type 0
InOrder all taken way left = Begins (taken ++ (way ++ left)) all

pub InOrder-scan :
    (all taken way ts : List Text) (t : Text) {left : List Text}
    → left ≡ t ∷ ts
    → InOrder all taken way left
    → InOrder all taken (way ++ t ∷ []) ts
InOrder-scan all taken way ts t e h =
    subst (λ x. Begins (taken ++ x) all) (ap (λ x. way ++ x) e ∙ sym (append_assoc way (t ∷ []) ts))
      h

pub InOrder-lose :
    (all taken way left : List Text) → InOrder all taken way left → InOrder all taken way []
InOrder-lose all taken way left h =
    subst (λ x. Begins (taken ++ x) all) (sym (append-nil way))
      (Begins-fewer (taken ++ way) left all
        (subst (λ x. Begins x all) (sym (append_assoc taken way left)) h))

pub InOrder-cut :
    (all taken way ts : List Text) (read unread : Text) {t : Text} {left : List Text}
    → left ≡ t ∷ ts
    → t ≡ read ++ unread
    → InOrder all taken way left
    → InOrder all taken (way ++ read ∷ []) []
InOrder-cut all taken way ts read unread {t} {left} e c h =
    subst (λ x. Begins x all)
      (append_assoc taken way (read ∷ [])
        ∙ ap (λ x. taken ++ x) (sym (append-nil (way ++ read ∷ []))))
      (Begins-cut (taken ++ way) ts all read unread (
        subst (λ x. Begins x all)
          (ap (λ x. taken ++ (way ++ x)) (e ∙ ap (λ x. x ∷ ts) c)
            ∙ sym (append_assoc taken way ((read ++ unread) ∷ ts)))
          h))

pub InOrder-receive :
    (all taken way left : List Text) (t : Text)
    → InOrder all taken (t ∷ way) left
    → InOrder all (taken ++ t ∷ []) way left
InOrder-receive all taken way left t h =
    subst (λ x. Begins x all) (sym (append_assoc taken (t ∷ []) (way ++ left))) h
