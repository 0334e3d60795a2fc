-- ===== src/Pool/Process/Order.antt =====
-- The results of `ProcessAll` stand in the order of the requests.
use go_proton_api.Base.{
  ℕ, zero, suc, ◌+◌, ◌<◌, false, subst, nat_eq, nat_beq_iff, Option, none, some, List, [], ◌∷◌,
  ◌==◌, length, map, set, replicate, get_elem?, get_elem?-set_self, get_elem?-set_other, length-set,
  length-replicate, list_ext, All, In, ◌≡◌, refl, sym, ap, ◌∙◌, arith, Bool-cases, inl, inr,
}
use go_proton_api.Pool.Process.{
  value, Jobs, Progress, ended, finish_all, finish_one, goroutines, in_turn, pick, process,
  process_all, store_result,
}

module _ {Req Out : Type 0} (work : Req → Out) where
  -- The places with which the slots are filled, in their order.
  abbrev fill : List (ℕ × Req) → List (Option Out) → List (Option Out)
  fill [] slots = slots
  fill ((i, req) ∷ places) slots = fill places (set slots i (some (work req)))

  length-fill :
      (places : List (ℕ × Req)) (slots : List (Option Out))
      → length (fill places slots) ≡ length slots
  length-fill [] slots = refl
  length-fill ((i, req) ∷ places) slots =
      length-fill places (set slots i (some (work req))) ∙ length-set slots i (some (work req))

  -- A place stands in the list of requests with its request.
  abbrev pub IsPlace : List Req → ℕ × Req → Type 0
  IsPlace reqs place = get_elem? reqs place.0 ≡ some place.1

  place_same :
      (reqs : List Req) (j i : ℕ) (other req : Req)
      → get_elem? reqs j ≡ some other
      → get_elem? reqs i ≡ some req
      → j ≡ i
      → other ≡ req
  place_same reqs j i other req e q same = cc (ap (get_elem? reqs) same)

  -- A write at a place of the requests leaves the slots right.
  set-kept :
      (reqs : List Req) (j i : ℕ) (other req : Req) (slots : List (Option Out))
      → get_elem? reqs j ≡ some other
      → get_elem? reqs i ≡ some req
      → i < length slots
      → get_elem? slots i ≡ some (some (work req))
      → get_elem? (set slots j (some (work other))) i ≡ some (some (work req))
  set-kept reqs j i other req slots e q small h = elim (Bool-cases (j == i)) [
    | inl t ↦
        let same : j ≡ i = (nat_beq_iff j i).0 t in
        let one = place_same reqs j i other req e q same in
        rw (same, one) (get_elem?-set_self slots i (some (work req)) small)
    | inr t ↦ get_elem?-set_other slots j i (some (work other)) (ground arith) ∙ h
  ]

  -- A slot that has its value keeps it.
  fill-kept :
      (reqs : List Req) (places : List (ℕ × Req)) (slots : List (Option Out)) (i : ℕ) (req : Req)
      → All (IsPlace reqs) places
      → get_elem? reqs i ≡ some req
      → i < length slots
      → get_elem? slots i ≡ some (some (work req))
      → get_elem? (fill places slots) i ≡ some (some (work req))
  fill-kept reqs [] slots i req h e small q = q
  fill-kept reqs ((j, other) ∷ places) slots i req h e small q =
      fill-kept reqs places (set slots j (some (work other))) i req h.1 e
        (omega (arith, length-set slots j (some (work other))))
        (set-kept reqs j i other req slots h.0 e small q)

  fill-written :
      (reqs : List Req) (places : List (ℕ × Req)) (slots : List (Option Out)) (i : ℕ) (req : Req)
      → All (IsPlace reqs) places
      → get_elem? reqs i ≡ some req
      → i < length slots
      → In i (map (λ place. place.0) places)
      → get_elem? (fill places slots) i ≡ some (some (work req))
  fill-written reqs [] slots i req h e small here = absurd here
  fill-written reqs ((j, other) ∷ places) slots i req h e small (inl here) =
      let same : other ≡ req = place_same reqs j i other req h.0 e here in
      fill-kept reqs places (set slots j (some (work other))) i req h.1 e
        (omega (arith, length-set slots j (some (work other))))
        (rw (here, same) (get_elem?-set_self slots i (some (work req)) small))
  fill-written reqs ((j, other) ∷ places) slots i req h e small (inr later) =
      fill-written reqs places (set slots j (some (work other))) i req h.1 e
        (omega (arith, length-set slots j (some (work other)))) later

  get_elem?-map :
      (reqs : List Req) (i : ℕ)
      → i < length reqs
      → (req : Req) × (get_elem? reqs i ≡ some req)
        × (get_elem? (map (λ r. some (work r)) reqs) i ≡ some (some (work req)))
  get_elem?-map [] i h = absurd (omega arith)
  get_elem?-map (x ∷ reqs) zero h = (x, refl, refl)
  get_elem?-map (x ∷ reqs) (suc i) h = get_elem?-map reqs i (omega arith)

  length-results : (reqs : List Req) → length (map (λ r. some (work r)) reqs) ≡ length reqs
  length-results [] = refl
  length-results (x ∷ reqs) = ap suc (length-results reqs)

  fill-results :
      (reqs : List Req) (places : List (ℕ × Req))
      → All (IsPlace reqs) places
      → ((i : ℕ) → i < length reqs → In i (map (λ place. place.0) places))
      → fill places (replicate (length reqs) none) ≡ map (λ r. some (work r)) reqs
  fill-results reqs places h all =
      let slots : List (Option Out) = replicate (length reqs) none in
      let n : length slots ≡ length reqs = length-replicate (length reqs) none in
      let filled = length-fill places slots in
      list_ext (fill places slots) (map (λ r. some (work r)) reqs)
        (filled ∙ n ∙ sym (length-results reqs))
        (λ i small.
          let inside : i < length reqs = omega (arith, filled, n) in
          let (req, e, q) = get_elem?-map reqs i inside in
          fill-written reqs places slots i req h e (omega (arith, n)) (all i inside) ∙ sym q)

-- A pick changes neither what holds of all the elements nor which they are.
module _ {A : Type 0} where
  pick-All :
      (P : A → Type 0) (k : ℕ) (t : A) (ts : List A)
      → All P (t ∷ ts)
      → P (pick k t ts).0 × All P (pick k t ts).1
  unfolding pick
  pick-All P zero t ts h = h
  pick-All P (suc k) t [] h = h
  pick-All P (suc k) t (u ∷ us) h =
      let picked = pick-All P k u us h.1 in (picked.0, (h.0, picked.1))

  in_turn-All : (P : A → Type 0) (ks : List ℕ) (ts : List A) → All P ts → All P (in_turn ks ts)
  unfolding in_turn
  in_turn-All P [] ts h = h
  in_turn-All P (k ∷ ks) [] h = h
  in_turn-All P (k ∷ ks) (t ∷ ts) h =
      let picked = pick-All P k t ts h in (picked.0, in_turn-All P ks (pick k t ts).1 picked.1)

  pick-In :
      (a : A) (k : ℕ) (t : A) (ts : List A)
      → In a (t ∷ ts)
      → In a ((pick k t ts).0 ∷ (pick k t ts).1)
  unfolding pick
  pick-In a zero t ts h = h
  pick-In a (suc k) t [] h = h
  pick-In a (suc k) t (u ∷ us) (inl e) = inr (inl e)
  pick-In a (suc k) t (u ∷ us) (inr h) = elim (pick-In a k u us h) [
    | inl e ↦ inl e
    | inr q ↦ inr (inr q)
  ]

  in_turn-In : (a : A) (ks : List ℕ) (ts : List A) → In a ts → In a (in_turn ks ts)
  unfolding in_turn
  in_turn-In a [] ts h = h
  in_turn-In a (k ∷ ks) [] h = h
  in_turn-In a (k ∷ ks) (t ∷ ts) h = elim (pick-In a k t ts h) [
    | inl e ↦ inl e
    | inr q ↦ inr (in_turn-In a ks (pick k t ts).1 q)
  ]

module _ {Req Out : Type 0} (work : Req → Out) where
  In-map :
      (i : ℕ) (req : Req) (places : List (ℕ × Req))
      → In (i, req) places
      → In i (map (λ place. place.0) places)
  In-map i req [] h = absurd h
  In-map i req (place ∷ places) (inl e) = inl (ap (λ p. p.0) e)
  In-map i req (place ∷ places) (inr h) = inr (In-map i req places h)

  -- The goroutines from an index on, where the requests from that index on are these.
  goroutines-IsPlace :
      (reqs : List Req) (k : ℕ) (rest : List Req)
      → ((i : ℕ) → get_elem? reqs (k + i) ≡ get_elem? rest i)
      → All (IsPlace work reqs) (goroutines k rest)
  unfolding goroutines
  goroutines-IsPlace reqs k [] h = tt
  goroutines-IsPlace reqs k (req ∷ rest) h = (
    ap (get_elem? reqs) (omega arith) ∙ h 0,
    goroutines-IsPlace reqs (suc k) rest (λ i. ap (get_elem? reqs) (omega arith) ∙ h (suc i)),
  )

  goroutines-In :
      (k i : ℕ) (reqs : List Req) (req : Req)
      → get_elem? reqs i ≡ some req
      → In (k + i, req) (goroutines k reqs)
  unfolding goroutines
  goroutines-In k i [] req h = absurd (cc)
  goroutines-In k zero (r ∷ reqs) req h =
      let same : r ≡ req = ground arith in inl (rw same (ap (λ n. (n, req)) (omega arith)))
  goroutines-In k (suc i) (r ∷ reqs) req h = inr (
      subst (λ n. In (n, req) (goroutines (suc k) reqs)) (omega arith)
        (goroutines-In (suc k) i reqs req h))

module _ {Req Out Err : Type 0} (work : Req → Out) (jobs : Jobs Req Out Err) where
  -- The job of the request succeeds with the value of the work, as long as nothing was cancelled.
  abbrev pub Succeeds : Req → Type 0
  Succeeds req = jobs false req ≡ ended (some (work req)) none

  abbrev at_work : List (Option Out) → Progress Err (List (Option Out))
  at_work slots = record { cancelled = false; errs = []; written = slots }

  finish_all-fill :
      (places : List (ℕ × Req)) (slots : List (Option Out))
      → All (λ place. Succeeds place.1) places
      → finish_all store_result jobs places (at_work slots) ≡ at_work (fill work places slots)
  unfolding finish_all finish_one store_result
  finish_all-fill [] slots h = refl
  finish_all-fill ((i, req) ∷ places) slots h =
      let one : finish_one store_result jobs (i, req) (at_work slots)
          ≡ at_work (set slots i (some (work req))) =
        rw (finish_one, h.0) refl in
      ap (finish_all store_result jobs places) one
      ∙ finish_all-fill places (set slots i (some (work req))) h.1

  goroutines-Succeeds :
      (k : ℕ) (reqs : List Req)
      → All Succeeds reqs
      → All (λ place. Succeeds place.1) (goroutines k reqs)
  unfolding goroutines
  goroutines-Succeeds k [] h = tt
  goroutines-Succeeds k (req ∷ reqs) h = (h.0, goroutines-Succeeds (suc k) reqs h.1)

  -- If the job of every request succeeds, `ProcessAll` returns the values of the work in the order of
  -- the requests, in whatever order the goroutines that it starts come to their end.
  pub process_all_ordered :
      (picks : List ℕ) (reqs : List Req)
      → All Succeeds reqs
      → process_all jobs picks reqs ≡ value (map (λ r. some (work r)) reqs)
  unfolding process_all process
  process_all_ordered picks reqs h =
      let started = goroutines 0 reqs in
      let slots : List (Option Out) = replicate (length reqs) none in
      let ends = in_turn picks started in
      let done =
        finish_all-fill ends slots
          (in_turn-All (λ place. Succeeds place.1) picks started (goroutines-Succeeds 0 reqs h)) in
      let filled =
        fill-results work reqs ends
          (in_turn-All (IsPlace work reqs) picks started
            (goroutines-IsPlace work reqs 0 reqs (λ i. ap (get_elem? reqs) (omega arith))))
          (λ i small.
            let (req, e, _) = get_elem?-map work reqs i small in
            In-map work i req ends (
              in_turn-In (i, req) picks started
                (subst (λ n. In (n, req) started) (omega arith)
                  (goroutines-In work 0 i reqs req e)))) in
      rw done (ap value filled)
