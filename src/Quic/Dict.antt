-- ===== src/Quic/Dict.antt =====
-- Python's `dict`, as the list of its items in the order of insertion.
use mini_im.Prelude.{
  ◌≡◌, refl, ap, ◌∙◌, inl, inr, Bool, true, false, Option, none, some, List, [], ◌∷◌, if◌then◌else◌,
  Bool-cases,
}

module _ {K V : Type 0} (same : K → K → Bool) where
  -- `d.get(key)`
  unfoldable pub get : K → List (K × V) → Option V
  get key [] = none
  get key ((k, v) ∷ d) = if same k key then some v else get key d

  -- `d[key] = value`
  unfoldable pub put : K → V → List (K × V) → List (K × V)
  put key value [] = (key, value) ∷ []
  put key value ((k, v) ∷ d) = if same k key then (k, value) ∷ d else (k, v) ∷ put key value d

  unfoldable pub remove : K → List (K × V) → List (K × V)
  remove key [] = []
  remove key ((k, v) ∷ d) = let rest = remove key d in if same k key then rest else (k, v) ∷ rest

  -- `d.pop(key)`; `none` is a `KeyError`.
  unfoldable pub pop : K → List (K × V) → Option (List (K × V))
  unfolding get remove
  pop key d = elim (get key d) [ none ↦ none | some v ↦ some (remove key d) ]

  -- `d.values()`
  unfoldable pub values : List (K × V) → List V
  values [] = []
  values ((k, v) ∷ d) = v ∷ values d

  module _ (sound : (j k : K) → same j k ≡ true → j ≡ k)
      (reflexive : (k : K) → same k k ≡ true) where
    pub get-put : (key : K) (value : V) (d : List (K × V)) → get key (put key value d) ≡ some value
    unfolding get put
    get-put key value [] = rw (reflexive key) refl
    get-put key value ((k, v) ∷ d) = elim (Bool-cases (same k key)) [
      | inl e ↦ rw (e, e) refl
      | inr n ↦ rw (n, n) (get-put key value d)
    ]

    pub get-put_other :
        (key other : K) (value : V) (d : List (K × V))
        → same key other ≡ false
        → get other (put key value d) ≡ get other d
    unfolding get put
    get-put_other key other value [] h = rw h refl
    get-put_other key other value ((k, v) ∷ d) h = elim (Bool-cases (same k key)) [
      | inl e ↦
          let f : same k other ≡ false = ap (λ (j : K). same j other) (sound k key e) ∙ h in
          rw (e, f) refl
      | inr n ↦ elim (Bool-cases (same k other)) [
        | inl o ↦ rw (n, o) refl
        | inr o ↦ rw (n, o) (get-put_other key other value d h)
      ]
    ]

    pub get-remove : (key : K) (d : List (K × V)) → get key (remove key d) ≡ none
    unfolding get remove
    get-remove key [] = refl
    get-remove key ((k, v) ∷ d) = elim (Bool-cases (same k key)) [
      | inl e ↦ rw e (get-remove key d)
      | inr n ↦ rw (n, n) (get-remove key d)
    ]

    pub get-remove_other :
        (key other : K) (d : List (K × V))
        → same key other ≡ false
        → get other (remove key d) ≡ get other d
    unfolding get remove
    get-remove_other key other [] h = refl
    get-remove_other key other ((k, v) ∷ d) h = elim (Bool-cases (same k key)) [
      | inl e ↦
          let f : same k other ≡ false = ap (λ (j : K). same j other) (sound k key e) ∙ h in
          rw (e, f) (get-remove_other key other d h)
      | inr n ↦ elim (Bool-cases (same k other)) [
        | inl o ↦ rw (n, o) refl
        | inr o ↦ rw (n, o) (get-remove_other key other d h)
      ]
    ]
