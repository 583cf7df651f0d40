-- ===== src/Schedules/Rows.antt =====
-- internal/store/sqlite/schedule.go: the statements as seen from one row.
use piper.Schedules.{Schedule, is_schedule, get_schedule, update_schedule, delete_schedule}
use piper.Prelude.{
  ◌∙◌, sym, ap, ◌&&◌, str_eq, String, Bool, true, false, Option, none, some, List, [], ◌∷◌, ◌≡◌,
  refl, arith, eq_iff, Bool-cases, inl, inr,
}

-- A property of the row, if there is one.
abbrev pub OnRow : (Schedule → Type 0) → Option Schedule → Type 0
OnRow P none = Unit
OnRow P (some r) = P r

pub get-is_schedule :
    (p id : String) (rows : List Schedule) (sc : Schedule)
    → get_schedule p id rows ≡ some sc
    → is_schedule p id sc ≡ true
unfolding get_schedule
get-is_schedule p id [] sc e = cc e
get-is_schedule p id (r ∷ rows) sc e = elim (Bool-cases (is_schedule p id r)) [
  | inl t ↦ ground (arith, e, t)
  | inr f ↦ get-is_schedule p id rows sc (ground (arith, e, f))
]

pub same_schedule :
    (p id q i : String) (sc : Schedule)
    → is_schedule p id sc ≡ true
    → is_schedule q i sc ≡ true
    → (p ≡ q) × (id ≡ i)
unfolding is_schedule
same_schedule p id q i sc a b = (
  ground (arith, a, b, eq_iff sc.project_id p, eq_iff sc.project_id q),
  ground (arith, a, b, eq_iff sc.id id, eq_iff sc.id i),
)

module _ (p id : String) (clause : Schedule → Bool) (change : Schedule → Schedule)
    (keeps : (q i : String) (sc : Schedule)
      → is_schedule q i (change sc) ≡ is_schedule q i sc) where
  -- An affected row is there before and after.
  pub update-affected :
      (rows : List Schedule)
      → (update_schedule p id clause change rows).0 ≡ true
      → (old : Schedule) × (get_schedule p id rows ≡ some old)
        × (clause old ≡ true)
        × (get_schedule p id (update_schedule p id clause change rows).1 ≡ some (change old))
  unfolding update_schedule get_schedule
  update-affected [] h = cc h
  update-affected (sc ∷ rows) h = elim (Bool-cases (is_schedule p id sc)) [
    | inl t ↦ elim (Bool-cases (clause sc)) [
      | inl c ↦ (sc, rw t refl, c, rw (t, c, keeps p id sc, t) refl)
      | inr n ↦ absurd (ground (arith, h, t, n))
    ]
    | inr f ↦
        let (old, e, c, e') = update-affected rows (ground (arith, h, f)) in
        (old, rw f e, c, rw (f, f) e')
  ]

  -- A statement on another row.
  pub update-elsewhere :
      (q i : String) (rows : List Schedule)
      → ((sc : Schedule) → is_schedule p id sc ≡ true → is_schedule q i sc ≡ false)
      → get_schedule q i (update_schedule p id clause change rows).1 ≡ get_schedule q i rows
  unfolding update_schedule get_schedule
  update-elsewhere q i [] other = refl
  update-elsewhere q i (sc ∷ rows) other = elim (Bool-cases (is_schedule p id sc)) [
    | inl t ↦ elim (Bool-cases (clause sc)) [
      | inl c ↦ rw (t, c, keeps q i sc, other sc t) refl
      | inr n ↦ rw (t, n) refl
    ]
    | inr f ↦ rw (f, update-elsewhere q i rows other) refl
  ]

  pub update-OnRow :
      (P : Schedule → Type 0) (q i : String) (rows : List Schedule)
      → ((sc : Schedule) → clause sc ≡ true → P sc → P (change sc))
      → OnRow P (get_schedule q i rows)
      → OnRow P (get_schedule q i (update_schedule p id clause change rows).1)
  unfolding update_schedule get_schedule
  update-OnRow P q i [] step h = tt
  update-OnRow P q i (sc ∷ rows) step h = elim (Bool-cases (is_schedule p id sc)) [
    | inl t ↦ elim (Bool-cases (clause sc)) [
      | inl c ↦ elim (Bool-cases (is_schedule q i sc)) [
        | inl a ↦ rw (t, c, keeps q i sc, a) (step sc c (rw a at h))
        | inr b ↦ rw (t, c, keeps q i sc, b) (rw b at h)
      ]
      | inr n ↦ rw (t, n) h
    ]
    | inr f ↦ elim (Bool-cases (is_schedule q i sc)) [
      | inl a ↦ rw (f, a) (rw a at h)
      | inr b ↦ rw (f, b) (update-OnRow P q i rows step (rw b at h))
    ]
  ]

pub delete-get :
    (p id : String) (rows : List Schedule) → get_schedule p id (delete_schedule p id rows) ≡ none
unfolding get_schedule delete_schedule
delete-get p id [] = refl
delete-get p id (sc ∷ rows) = ground (arith, delete-get p id rows)

pub delete-elsewhere :
    (p id q i : String) (rows : List Schedule)
    → ((sc : Schedule) → is_schedule p id sc ≡ true → is_schedule q i sc ≡ false)
    → get_schedule q i (delete_schedule p id rows) ≡ get_schedule q i rows
unfolding get_schedule delete_schedule
delete-elsewhere p id q i [] other = refl
delete-elsewhere p id q i (sc ∷ rows) other =
    ground (arith, delete-elsewhere p id q i rows other, other sc)

pub delete-OnRow :
    (P : Schedule → Type 0) (p id q i : String) (rows : List Schedule)
    → OnRow P (get_schedule p id rows)
    → OnRow P (get_schedule p id (delete_schedule q i rows))
unfolding is_schedule
delete-OnRow P p id q i rows h = elim (Bool-cases (str_eq q p && str_eq i id)) [
  | inl t ↦
      rw
        (
          (eq_iff q p).0 (ground (arith, t)),
          (eq_iff i id).0 (ground (arith, t)),
          delete-get p id rows,
        )
        tt
  | inr f ↦ rw (delete-elsewhere q i p id rows (apart f)) h
]
  where
    apart :
        (str_eq q p && str_eq i id) ≡ false
        → (sc : Schedule) → is_schedule q i sc ≡ true
        → is_schedule p id sc ≡ false
    apart f sc t = ground (
      arith,
      f,
      t,
      eq_iff sc.project_id q,
      eq_iff sc.id i,
      eq_iff q p,
      eq_iff i id,
      eq_iff sc.project_id p,
      eq_iff sc.id id,
    )

-- A row that was found under one key and has another has the same key.
pub get-own_key :
    (p id q i : String) (rows : List Schedule) (sc : Schedule)
    → get_schedule q i rows ≡ some sc
    → is_schedule p id sc ≡ true
    → get_schedule p id rows ≡ some sc
get-own_key p id q i rows sc e t =
    let (a, b) = same_schedule p id q i sc t (get-is_schedule q i rows sc e) in rw (a, b) e

pub get-key :
    (p id : String) (sc : Schedule)
    → is_schedule p id sc ≡ true
    → (rows : List Schedule) → get_schedule p id rows ≡ get_schedule sc.project_id sc.id rows
unfolding is_schedule
get-key p id sc own rows =
    let a : sc.project_id ≡ p = (eq_iff sc.project_id p).0 (ground (arith, own)) in
    let b : sc.id ≡ id = (eq_iff sc.id id).0 (ground (arith, own)) in
    ap (λ q. get_schedule q id rows) (sym a) ∙ ap (λ i. get_schedule sc.project_id i rows) (sym b)
