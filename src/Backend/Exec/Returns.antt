-- ===== src/Backend/Exec/Returns.antt =====
-- What a sequence that returns says of its parts.
use go_proton_api.Base.{◌≡◌, refl, arith}
use go_proton_api.Backend.Exec.{Exec, Outcome, returned, failed, panicked, stuck, resume, ◌>>=◌}

module _ {S : Type 0} where
  -- The state that a statement without an error leaves goes into the rest.
  pub after_loop :
      (m k : Exec S Unit) (b : S)
      → ((m >>= λ _. k) b).0 ≡ returned tt
      → (m >>= λ _. k) b ≡ k (m b).1
  unfolding ◌>>=◌
  after_loop m k b h = go (m b) h
    where
      go :
          (r : Outcome Unit × S)
          → (resume r.0 (λ _. k) r.1).0 ≡ returned tt
          → resume r.0 (λ _. k) r.1 ≡ k r.1
      go (returned tt, s) h = refl
      go (failed e, s) h = absurd (ground arith)
      go (panicked, s) h = absurd (ground arith)
      go (stuck, s) h = absurd (ground arith)

  pub first_returned :
      (m k : Exec S Unit) (b : S) → ((m >>= λ _. k) b).0 ≡ returned tt → (m b).0 ≡ returned tt
  unfolding ◌>>=◌
  first_returned m k b h = go (m b) h
    where
      go : (r : Outcome Unit × S) → (resume r.0 (λ _. k) r.1).0 ≡ returned tt → r.0 ≡ returned tt
      go (returned tt, s) h = refl
      go (failed e, s) h = absurd (ground arith)
      go (panicked, s) h = absurd (ground arith)
      go (stuck, s) h = absurd (ground arith)
