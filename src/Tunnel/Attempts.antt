-- ===== src/Tunnel/Attempts.antt =====
-- internal/tunnel/tunnel.go: how often `Start` tries, and when it succeeds.
use dev_connect.Prelude.{
  ℕ, zero, suc, ◌+◌, ◌≤◌, ◌≡◌, sym, ap, ◌∙◌, arith, ℤ, inl, inr, Option-cases,
}
use dev_connect.Result.{Error, Result, ok, err, Result-cases}
use dev_connect.Kubectl.{Command, Runner, port_forward_service_command}
use dev_connect.Tunnel.{StartOptions, Started, attempt, start_loop, start, further_attempts}
use native.Mathlib.Nat.{add-zero}

module _ {S : Type 0} (runner : Runner S) (command : Command) where
  -- Attempts in a row that fail, from the `n`th on, and the world before and after them.
  pub data Failed : ℕ → S → ℕ → S → Type 0 where
    nothing : {n : ℕ} {s : S} → Failed n s zero s
    once_more :
        {n k : ℕ} {s t u : S} {e : Error}
        → attempt runner command n s ≡ (err e, t)
        → Failed (suc n) t k u
        → Failed n s (suc k) u

  -- The first success, after as many failures as come before it.
  pub record Succeeded (n left : ℕ) (s : S) (r : Started) (u : S) : Type 0 where
    pub before : ℕ
    pub world : S
    pub within : before ≤ left
    pub failures : Failed n s before world
    pub success : attempt runner command (n + before) world ≡ (ok r, u)
    pub counted : r.attempts ≡ n + before

  attempt-attempts :
      (n : ℕ) (s : S) {r : Started} {u : S}
      → attempt runner command n s ≡ (ok r, u)
      → r.attempts ≡ n
  unfolding attempt
  attempt-attempts n s h = elim (Option-cases runner.start_until_ready) [
    | inl none_ ↦ ground arith
    | inr (f, some_) ↦ ground arith
  ]

  start_loop_ok :
      (left n : ℕ) (s : S) {r : Started} {u : S}
      → start_loop runner left n command s ≡ (ok r, u)
      → Succeeded n left s r u
  unfolding start_loop
  start_loop_ok zero n s {r} {u} h = record {
    before = 0;
    world = s;
    within = omega arith;
    failures = nothing;
    success = ap (λ k. attempt runner command k s) (add-zero n) ∙ h;
    counted = attempt-attempts n s h ∙ sym (add-zero n);
  }
  start_loop_ok (suc left) n s {r} {u} h = elim (Result-cases (attempt runner command n s).0) [
    | inl (a, e) ↦
        let same : ◌≡◌ {A = Result Started × S} (ok a, (attempt runner command n s).1) (ok r, u) =
          rw (e, start_loop) at h in
        let once : attempt runner command n s ≡ (ok r, u) =
          (λ i. (e i, (attempt runner command n s).1)) ∙ same in
        record {
          before = 0;
          world = s;
          within = omega arith;
          failures = nothing;
          success = ap (λ k. attempt runner command k s) (add-zero n) ∙ once;
          counted = attempt-attempts n s once ∙ sym (add-zero n);
        }
    | inr (x, e) ↦
        let t = (attempt runner command n s).1 in
        let more = start_loop_ok left (suc n) t (rw (e, start_loop) at h) in
        let shift : n + suc more.before ≡ suc n + more.before = omega arith in
        record {
          before = suc more.before;
          world = more.world;
          within = omega (arith, more.within);
          failures = once_more (λ i. (e i, t)) more.failures;
          success = ap (λ k. attempt runner command k more.world) shift ∙ more.success;
          counted = more.counted ∙ sym shift;
        }
  ]

  start_loop-Failed :
      (left n : ℕ) (s : S) {x : Error} {u : S}
      → start_loop runner left n command s ≡ (err x, u)
      → Failed n s (suc left) u
  unfolding start_loop
  start_loop-Failed zero n s h = once_more h nothing
  start_loop-Failed (suc left) n s {x} {u} h = elim (Result-cases (attempt runner command n s).0) [
    | inl (a, e) ↦
        let same : ◌≡◌ {A = Result Started × S} (ok a, (attempt runner command n s).1) (err x, u) =
          rw (e, start_loop) at h in
        cc
    | inr (y, e) ↦
        let t = (attempt runner command n s).1 in
        once_more (λ i. (e i, t)) (start_loop-Failed left (suc n) t (rw (e, start_loop) at h))
  ]

module _ {S : Type 0} (runner : Runner S) (max : ℤ) (o : StartOptions) where
  -- A start that succeeds has made at most the allowed attempts, the first and the reconnects:
  -- those before the last one failed, the last one succeeded, and the number that is reported is
  -- the number that were made.
  pub start_ok :
      (s : S) {r : Started} {u : S}
      → start runner max o s ≡ (ok r, u)
      → Succeeded runner
          (port_forward_service_command o.port_forward)
          1
          (further_attempts max o.reconnect)
          s
          r
          u
  unfolding start
  start_ok s h =
      start_loop_ok runner (port_forward_service_command o.port_forward)
        (further_attempts max o.reconnect) 1 s h

  -- A start that fails has made all the attempts that are allowed, and each of them failed.
  pub start-Failed :
      (s : S) {x : Error} {u : S}
      → start runner max o s ≡ (err x, u)
      → Failed runner
          (port_forward_service_command o.port_forward)
          1
          s
          (suc (further_attempts max o.reconnect))
          u
  unfolding start
  start-Failed s h =
      start_loop-Failed runner (port_forward_service_command o.port_forward)
        (further_attempts max o.reconnect) 1 s h
