-- ===== src/Client/Futures/Counting.antt =====
-- The results of one invocation among others: rfaas/lib/executor.cpp, `poll_queue`.
use r_faa_s.Common.{
  ℕ, suc, ◌-◌, ◌≤◌, ◌≡◌, refl, true, false, inl, inr, Option, none, some, List, [], ◌∷◌, nat_eq,
  arith, ◌==◌, Bool-cases, Option-cases, if◌then◌else◌,
}
use r_faa_s.Common.Int.{pos}
use r_faa_s.Client.Submission.{return_val, finished_invoc_id}
use r_faa_s.Client.Futures.{Future}

-- How many results are of an invocation, and the value of the last one.
abbrev pub count : ℕ → List ℕ → ℕ
count id [] = 0
count id (word ∷ words) =
    let rest = count id words in if finished_invoc_id word == id then suc rest else rest

abbrev pub last_value : ℕ → List ℕ → Option ℕ
last_value id [] = none
last_value id (word ∷ words) =
    let rest = last_value id words in
    elim rest [
      | some value ↦ some value
      | none ↦ if finished_invoc_id word == id then some (return_val word) else none
    ]

last_value-none : (id : ℕ) (words : List ℕ) → count id words ≡ 0 → last_value id words ≡ none
last_value-none id [] h = refl
last_value-none id (word ∷ words) h = ground (arith, last_value-none id words)

pub count-other :
    (word : ℕ) (words : List ℕ) (id n : ℕ)
    → (finished_invoc_id word == id) ≡ false
    → count id (word ∷ words) ≤ n
    → count id words ≤ n
count-other word words id n e h = ground arith

counted :
    (word : ℕ) (words : List ℕ) (id : ℕ)
    → (finished_invoc_id word == id) ≡ false
    → 1 ≤ count id (word ∷ words)
    → 1 ≤ count id words
counted word words id e h = ground arith

last_value-some :
    (id : ℕ) (words : List ℕ) → 1 ≤ count id words → (v : ℕ) × (last_value id words ≡ some v)
last_value-some id [] h = elim h [ ]
last_value-some id (word ∷ words) h = elim (Option-cases (last_value id words)) [
  | inr (v, e) ↦ (v, rw (e, last_value) refl)
  | inl e ↦ elim (Bool-cases (finished_invoc_id word == id)) [
    | inl same ↦ (return_val word, rw (e, same, last_value) refl)
    | inr other ↦
        let (v, e') = last_value-some id words (counted word words id other h) in
        absurd (grind (arith, e, e'))
  ]
]

-- The entry of an invocation that missed `n` answers, after some results.
abbrev pub after : ℕ → ℕ → List ℕ → Future
after n id words = record {
  remaining = pos (n - count id words);
  value = if count id words == n then last_value id words else none;
}

abbrev pub missing : ℕ → Option ℕ → Future
missing r v = record { remaining = pos r; value = v }

pub future-eq : {r r' : ℕ} {v v' : Option ℕ} → r ≡ r' → v ≡ v' → missing r v ≡ missing r' v'
future-eq e e' = λ i. record { remaining = pos (e i); value = e' i }

pub count-same :
    (id word : ℕ) (words : List ℕ)
    → (finished_invoc_id word == id) ≡ true
    → count id (word ∷ words) ≡ suc (count id words)
count-same id word words e = rw (e, count) refl

count-not :
    (id word : ℕ) (words : List ℕ)
    → (finished_invoc_id word == id) ≡ false
    → count id (word ∷ words) ≡ count id words
count-not id word words e = rw (e, count) refl

last_value-not :
    (id word : ℕ) (words : List ℕ)
    → (finished_invoc_id word == id) ≡ false
    → last_value id (word ∷ words) ≡ last_value id words
last_value-not id word words e = elim (Option-cases (last_value id words)) [
  | inl z ↦ rw (z, e, last_value) refl
  | inr (v, z) ↦ rw (z, last_value) refl
]

last_value-more :
    (id word : ℕ) (words : List ℕ)
    → 1 ≤ count id words
    → last_value id (word ∷ words) ≡ last_value id words
last_value-more id word words h = let (v, z) = last_value-some id words h in rw (z, last_value) refl

pub after-other :
    (n id word : ℕ) (words : List ℕ)
    → (finished_invoc_id word == id) ≡ false
    → after n id (word ∷ words) ≡ after n id words
after-other n id word words e =
    let c = count-not id word words e in
    let l = last_value-not id word words e in future-eq (omega (arith, c)) (rw (c, l) refl)

kept_later :
    (n id word : ℕ) (words : List ℕ) (c : ℕ)
    → c ≡ count id words
    → (if suc c == suc (suc n) then last_value id (word ∷ words) else none)
      ≡ (if c == suc n then last_value id words else none)
kept_later n id word words c e = ground (arith, last_value-more id word words)

pub after-more :
    (n id word : ℕ) (words : List ℕ)
    → (finished_invoc_id word == id) ≡ true
    → after (suc (suc n)) id (word ∷ words) ≡ after (suc n) id words
after-more n id word words e =
    let c = count-same id word words e in
    future-eq (omega (arith, c)) (rw c (kept_later n id word words (count id words) refl))

pub after-last :
    (id word : ℕ) (words : List ℕ)
    → (finished_invoc_id word == id) ≡ true
    → count id words ≡ 0
    → after 1 id (word ∷ words) ≡ record { remaining = pos 0; value = some (return_val word) }
after-last id word words e z =
    let c = count-same id word words e in
    let none_later = last_value-none id words z in
    future-eq (omega (arith, c)) (rw (c, z, none_later, e, last_value) refl)
