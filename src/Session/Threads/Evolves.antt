-- ===== src/Session/Threads/Evolves.antt =====
-- How the list of the _Pending objects changes: objects are added, and each stays the same command.
use client_py.Prelude.{
  ℕ, ◌≡◌, refl, sym, subst, ◌∙◌, ap, Option, none, some, List, [], ◌∷◌, ◌++◌, get_elem?, set, All,
  All-append, All-set, All-get_elem?, some_injective, get_elem?-append, get_elem?-lt,
  get_elem?-set_self, get_elem?-set_ne, ◌==◌, ==_iff, Bool-cases, inl, inr, arith, ◌≢◌,
}
use client_py.Session.State.{Pending, update, update_all}
use client_py.Session.Threads.Settled.{IsSettled, Follows, Follows-refl, Follows-trans}

-- Every object of `xs` is in `ys` at the same place, the same command, and all are settled if they were.
pub record Evolves (xs ys : List Pending) : Type 0 where
  pub kept :
      (k : ℕ) (p : Pending)
      → get_elem? xs k ≡ some p
      → (q : Pending) × (get_elem? ys k ≡ some q) × Follows p q
  pub settled : All IsSettled xs → All IsSettled ys

pub Evolves-refl : (xs : List Pending) → Evolves xs xs
Evolves-refl xs = record { kept = λ k p h. (p, h, Follows-refl p); settled = λ h. h }

pub Evolves-trans : (xs ys zs : List Pending) → Evolves xs ys → Evolves ys zs → Evolves xs zs
Evolves-trans xs ys zs e f = record {
  kept = λ k p h.
      let (q, hq, pq) = e.kept k p h in
      let (r, hr, qr) = f.kept k q hq in (r, hr, Follows-trans p q r pq qr);
  settled = λ h. f.settled (e.settled h);
}

pub append-Evolves : (xs : List Pending) (p : Pending) → IsSettled p → Evolves xs (xs ++ p ∷ [])
append-Evolves xs p s = record {
  kept = λ k q h. (q, get_elem?-append xs (p ∷ []) k q h, Follows-refl q);
  settled = λ h. All-append IsSettled xs (p ∷ []) h (s, tt);
}

module _ (xs : List Pending) (i : ℕ) (p q : Pending) (at : get_elem? xs i ≡ some p)
    (follows : Follows p q) where
  kept-set :
      (k : ℕ) (r : Pending)
      → get_elem? xs k ≡ some r
      → (t : Pending) × (get_elem? (set xs i q) k ≡ some t) × Follows r t
  kept-set k r h = elim (Bool-cases (i == k)) [
    | inl same ↦
        let e = (==_iff i k).0 same in
        let here : get_elem? (set xs i q) k ≡ some q =
          ap (get_elem? (set xs i q)) (sym e)
          ∙ get_elem?-set_self xs i q (get_elem?-lt xs i p at) in
        let p_is_r = some_injective p r (sym at ∙ ap (get_elem? xs) e ∙ h) in
        (q, here, subst (λ v. Follows v q) p_is_r follows)
    | inr other ↦
        let ne : i ≢ k = ground arith in (r, get_elem?-set_ne xs i k q ne ∙ h, Follows-refl r)
  ]

  pub set-Evolves : Evolves xs (set xs i q)
  set-Evolves = record {
    kept = kept-set;
    settled =
        λ h. All-set IsSettled xs i q (follows.settled (All-get_elem? IsSettled xs i p h at)) h;
  }

module _ (f : Pending → Pending) (follows : (p : Pending) → Follows p (f p)) where
  update_from-Evolves :
      (xs : List Pending) (i : ℕ) (o : Option Pending)
      → get_elem? xs i ≡ o
      → Evolves xs (update xs i f)
  unfolding update
  update_from-Evolves xs i none h = rw h (Evolves-refl xs)
  update_from-Evolves xs i (some p) h = rw h (set-Evolves xs i p (f p) h (follows p))

  pub update_all-Evolves : (xs : List Pending) (refs : List ℕ) → Evolves xs (update_all xs refs f)
  unfolding update_all
  update_all-Evolves xs [] = Evolves-refl xs
  update_all-Evolves xs (ref ∷ refs) =
      Evolves-trans xs (update xs ref f) (update_all (update xs ref f) refs f)
        (update_from-Evolves xs ref (get_elem? xs ref) refl)
        (update_all-Evolves (update xs ref f) refs)
