-- ===== src/ResourceManager/Db/Ledger/Balance.antt =====
-- What is free of a node and what is held of it make up the whole: executor.cpp, `lease` and
-- `cancel_lease`.
use r_faa_s.Common.{
  ℕ, ◌≡◌, refl, sym, ap, subst, ◌∙◌, inl, inr, false, none, some, List, [], ◌∷◌, ◌++◌, ◌==◌, ==_iff,
  if◌then◌else◌, arith, Bool-cases, some_inj, set, get_elem?, get_elem?-set_self, get_elem?-set_ne,
  get_elem?-lt,
}
use r_faa_s.Common.Int.{ℤ, ◌+ℤ◌, ◌-ℤ◌, ◌≤ℤ◌, int_laws, +ℤ_parts}
use r_faa_s.ResourceManager.Executor.{Executor}
use r_faa_s.ResourceManager.Executors.{Executors, deref, store}
use r_faa_s.ResourceManager.Db.Ledger.{Hold, held}

deref-store :
    (ex : Executors) (r q : ℕ) (e : Executor) {o : Executor}
    → deref ex r ≡ some o
    → deref (store r e ex) q ≡ (if r == q then some e else deref ex q)
unfolding deref store
deref-store ex r q e h = elim (Bool-cases (r == q)) [
  | inl same ↦ rw same (
      subst (λ i. get_elem? (set ex.objects r e) i ≡ some e) ((==_iff r q).0 same)
        (get_elem?-set_self ex.objects r e (get_elem?-lt ex.objects r h)))
  | inr other ↦ rw other (get_elem?-set_ne ex.objects e (λ p. absurd (ground (arith, other, p))))
]

shift : (f c s : ℤ) → (f -ℤ c) +ℤ (c +ℤ s) ≡ f +ℤ s
shift f c s = omega int_laws

unshift : (f c s : ℤ) → (f +ℤ c) +ℤ s ≡ f +ℤ (c +ℤ s)
unshift f c s = omega int_laws

swap : (a b s : ℤ) → a +ℤ (b +ℤ s) ≡ b +ℤ (a +ℤ s)
swap a b s = omega int_laws

fits_whole : (f s c t : ℤ) → f +ℤ s ≡ t → c ≤ℤ f → s +ℤ c ≤ℤ t
fits_whole f s c t e h = subst (λ x. s +ℤ c ≤ℤ x) e (omega (arith, +ℤ_parts f s, +ℤ_parts s c))

-- One kind of resource: what is free of it at a node, what a lease takes, and what the nodes have.
module _ (free : Executor → ℤ) (part : Hold → ℤ) (total : ℕ → ℤ) where
  abbrev pub Balances : Executors → List Hold → Type 0
  Balances ex hs = (q : ℕ) (e : Executor) → deref ex q ≡ some e → free e +ℤ held part q hs ≡ total q

  held_without :
      (q : ℕ) (front : List Hold) (h : Hold) (back : List Hold)
      → held part q (front ++ h ∷ back) ≡ (
          if h.ref == q then part h +ℤ held part q (front ++ back) else held part q (front ++ back))
  held_without q [] h back = refl
  held_without q (x ∷ front) h back = elim (Bool-cases (x.ref == q)) [
    | inr other ↦ rw other (held_without q front h back)
    | inl mine ↦ elim (Bool-cases (h.ref == q)) [
      | inl same ↦
          rw (mine, same)
            (ap (λ y. part x +ℤ y) (held_without q front h back ∙ rw same refl)
              ∙ swap (part x) (part h) (held part q (front ++ back)))
      | inr apart ↦
          rw (mine, apart) (ap (λ y. part x +ℤ y) (held_without q front h back ∙ rw apart refl))
    ]
  ]

  -- The node gets a new object, and the leases that are held change along with it.
  moved :
      (ex : Executors) (hs hs' : List Hold) (r : ℕ) (e : Executor) {o : Executor}
      → Balances ex hs
      → deref ex r ≡ some o
      → ((q : ℕ) → (r == q) ≡ false → held part q hs' ≡ held part q hs)
      → free e +ℤ held part r hs' ≡ free o +ℤ held part r hs
      → Balances (store r e ex) hs'
  moved ex hs hs' r e {o} balanced there others same q e' h = elim (Bool-cases (r == q)) [
    | inl eq ↦
        let new = some_inj (sym (deref-store ex r q e there ∙ rw eq refl) ∙ h) in
        subst (λ x. free x +ℤ held part q hs' ≡ total q) new
          (subst (λ i. free e +ℤ held part i hs' ≡ total i) ((==_iff r q).0 eq)
            (same ∙ balanced r o there))
    | inr apart ↦
        let old = sym (deref-store ex r q e there ∙ rw apart refl) ∙ h in
        ap (λ y. free e' +ℤ y) (others q apart) ∙ balanced q e' old
  ]

  pub grant-Balances :
      (ex : Executors) (hs : List Hold) (h : Hold) (e : Executor) {o : Executor}
      → Balances ex hs
      → deref ex h.ref ≡ some o
      → free e ≡ free o -ℤ part h
      → Balances (store h.ref e ex) (h ∷ hs)
  grant-Balances ex hs h e {o} balanced there less =
      moved ex hs (h ∷ hs) h.ref e balanced there (λ q apart. rw apart refl)
        (rw ((==_iff h.ref h.ref).1 refl, less) (shift (free o) (part h) (held part h.ref hs)))

  pub release-Balances :
      (ex : Executors) (front : List Hold) (h : Hold) (back : List Hold) (e : Executor)
      {o : Executor}
      → Balances ex (front ++ h ∷ back)
      → deref ex h.ref ≡ some o
      → free e ≡ free o +ℤ part h
      → Balances (store h.ref e ex) (front ++ back)
  release-Balances ex front h back e {o} balanced there more =
      moved ex (front ++ h ∷ back) (front ++ back) h.ref e balanced there
        (λ q apart. sym (held_without q front h back ∙ rw apart refl))
        (ap (λ x. x +ℤ held part h.ref (front ++ back)) more
          ∙ unshift (free o) (part h) (held part h.ref (front ++ back))
          ∙ ap (λ y. free o +ℤ y)
              (sym (held_without h.ref front h back ∙ rw ((==_iff h.ref h.ref).1 refl) refl)))

  -- Where the node has no object, there is nothing to balance.
  pub forget-Balances :
      (ex : Executors) (front : List Hold) (h : Hold) (back : List Hold)
      → Balances ex (front ++ h ∷ back)
      → deref ex h.ref ≡ none
      → Balances ex (front ++ back)
  forget-Balances ex front h back balanced gone q e there = elim (Bool-cases (h.ref == q)) [
    | inl same ↦
        let found = sym gone ∙ ap (deref ex) ((==_iff h.ref q).0 same) ∙ there in absurd (cc)
    | inr apart ↦
        ap (λ y. free e +ℤ y) (sym (held_without q front h back ∙ rw apart refl))
        ∙ balanced q e there
  ]

  -- A lease that what is free allows fits into the whole.
  pub Balances-fits :
      (ex : Executors) (hs : List Hold) (h : Hold) {o : Executor}
      → Balances ex hs
      → deref ex h.ref ≡ some o
      → part h ≤ℤ free o
      → held part h.ref hs +ℤ part h ≤ℤ total h.ref
  Balances-fits ex hs h {o} balanced there enough =
      fits_whole (free o) (held part h.ref hs) (part h) (total h.ref) (balanced h.ref o there)
        enough
