-- ===== src/ResourceManager/Db/FirstFit.antt =====
-- The loop of `open_lease` against a plain description: the first free node that suits is taken.
use r_faa_s.Common.{
  ℕ, ◌≡◌, refl, ap, ◌∙◌, sym, ◌⊎◌, inl, inr, Option, none, some, List, [], ◌∷◌, ◌++◌, if◌then◌else◌,
  Bool-cases, Option-cases,
}
use r_faa_s.Common.Int.{ℤ}
use r_faa_s.ResourceManager.Executor.{Executor, WeakPtr, is_initialized, lease}
use r_faa_s.ResourceManager.Executors.{Executors, lock, deref}
use r_faa_s.ResourceManager.Db.{Search, keep, missing, found, search}

module _ (ex : Executors) (cores memory : ℤ) where
  -- The free nodes whose objects still live, in order.
  abbrev pub live : List WeakPtr → List WeakPtr
  live [] = []
  live (w ∷ ws) = elim (lock ex w) [
    | none ↦ live ws
    | some r ↦ elim (deref ex r) [ none ↦ live ws | some e ↦ w ∷ live ws ]
  ]

  -- A node that lives, is ready and has enough free, with its object after the lease.
  abbrev pub suits : WeakPtr → Option (ℕ × Executor)
  suits w = elim (lock ex w) [
    | none ↦ none
    | some r ↦ elim (deref ex r) [
      | none ↦ none
      | some e ↦
          if is_initialized e
          then (elim (lease cores memory e) [ none ↦ none | some e' ↦ some (r, e') ])
          else none
    ]
  ]

  abbrev pub NoneSuits : List WeakPtr → Type 0
  NoneSuits [] = Unit {0}
  NoneSuits (w ∷ ws) = (suits w ≡ none) × NoneSuits ws

  -- What the loop does with one node: it is dead, it is passed over, or it is taken.
  pub data Round (w : WeakPtr) (ws : List WeakPtr) : Type 0 where
    dead :
        suits w ≡ none
        → ((vs : List WeakPtr) → live (w ∷ vs) ≡ live vs)
        → search ex cores memory (w ∷ ws) ≡ search ex cores memory ws
        → Round w ws
    passed :
        suits w ≡ none
        → ((vs : List WeakPtr) → live (w ∷ vs) ≡ w ∷ live vs)
        → search ex cores memory (w ∷ ws) ≡ keep w (search ex cores memory ws)
        → Round w ws
    taken :
        (r : ℕ) (e : Executor)
        → suits w ≡ some (r, e)
        → search ex cores memory (w ∷ ws) ≡ found [] w r e ws
        → Round w ws

  round_of : (w : WeakPtr) (ws : List WeakPtr) → Round w ws
  unfolding search
  round_of w ws = elim (Option-cases (lock ex w)) [
    | inl e ↦ dead (rw (e, suits)) (λ vs. rw (e, live)) (rw (e, search))
    | inr (r, e) ↦ elim (Option-cases (deref ex r)) [
      | inl e' ↦ dead (rw (e, e', suits)) (λ vs. rw (e, e', live)) (rw (e, e', search))
      | inr (o, e') ↦ elim (Bool-cases (is_initialized o)) [
        | inl ready ↦ elim (Option-cases (lease cores memory o)) [
          | inl short ↦
              passed (rw (e, e', ready, short, suits)) (λ vs. rw (e, e', live))
                (rw (e, e', ready, short, search))
          | inr (o', fits) ↦
              taken r o' (rw (e, e', ready, fits, suits)) (rw (e, e', ready, fits, search))
        ]
        | inr not_ready ↦
            passed (rw (e, e', not_ready, suits)) (λ vs. rw (e, e', live))
              (rw (e, e', not_ready, search))
      ]
    ]
  ]

  -- How the free nodes split around the node that is taken.
  pub record Taken (ws : List WeakPtr) (s : Search) : Type 0 where
    pub before : List WeakPtr
    pub node : WeakPtr
    pub back : List WeakPtr
    pub ref : ℕ
    pub object : Executor
    pub splits : ws ≡ before ++ node ∷ back
    pub skipped : NoneSuits before
    pub suited : suits node ≡ some (ref, object)
    pub result : s ≡ found (live before) node ref object back

  -- The search ends with the first node that suits: those before it that live stay in their order, and
  -- those behind it are not looked at. If none suits, all that live stay.
  pub search_first_fit :
      (ws : List WeakPtr)
      → (NoneSuits ws × (search ex cores memory ws ≡ missing (live ws)))
        ⊎ Taken ws (search ex cores memory ws)
  search_first_fit [] = inl (tt, unfold search in refl)
  search_first_fit (w ∷ ws) = elim (round_of w ws) [
    | taken r e fits result ↦ inr (record {
      before = [];
      node = w;
      back = ws;
      ref = r;
      object = e;
      splits = refl;
      skipped = tt;
      suited = fits;
      result = result;
    })
    | dead unfit lives same ↦ elim (search_first_fit ws) [
      | inl (none_suit, result) ↦
          inl ((unfit, none_suit), same ∙ result ∙ ap missing (sym (lives ws)))
      | inr t ↦ inr (record {
        before = w ∷ t.before;
        node = t.node;
        back = t.back;
        ref = t.ref;
        object = t.object;
        splits = ap (λ vs. w ∷ vs) t.splits;
        skipped = (unfit, t.skipped);
        suited = t.suited;
        result =
            same
            ∙ t.result
            ∙ ap (λ vs. found vs t.node t.ref t.object t.back) (sym (lives t.before));
      })
    ]
    | passed unfit lives same ↦ elim (search_first_fit ws) [
      | inl (none_suit, result) ↦
          inl ((unfit, none_suit), same ∙ ap (keep w) result ∙ ap missing (sym (lives ws)))
      | inr t ↦ inr (record {
        before = w ∷ t.before;
        node = t.node;
        back = t.back;
        ref = t.ref;
        object = t.object;
        splits = ap (λ vs. w ∷ vs) t.splits;
        skipped = (unfit, t.skipped);
        suited = t.suited;
        result =
            same
            ∙ ap (keep w) t.result
            ∙ ap (λ vs. found vs t.node t.ref t.object t.back) (sym (lives t.before));
      })
    ]
  ]
