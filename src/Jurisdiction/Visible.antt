-- ===== src/Jurisdiction/Visible.antt =====
-- The codes that `visibleJurisdictions` lists are those whose decision does not throw.
use rent_a_4_wheel.Prelude.{
  ℕ, ◌≡◌, refl, sym, ◌∙◌, Bool, true, false, ◌&&◌, none, some, List, [], ◌∷◌, any, find, Bool-cases,
  inl, inr, Option-cases, arith,
}
use rent_a_4_wheel.Schema.Fleet.{Jurisdiction}
use rent_a_4_wheel.Schema.Database.{Db, Env}
use rent_a_4_wheel.Jurisdiction.{
  code_beq, is_ok, has_code, jurisdiction_decision, visible_jurisdictions,
}

code_beq_sound : (a b : List ℕ) → code_beq a b ≡ true → a ≡ b
code_beq_sound [] [] h = refl
code_beq_sound [] (b ∷ bs) h = cc
code_beq_sound (a ∷ as') [] h = cc
code_beq_sound (a ∷ as') (b ∷ bs) h = ground (arith, code_beq_sound as' bs)

pub decision_none : (env : Env) (db : Db) → is_ok (jurisdiction_decision env db none) ≡ false
unfolding jurisdiction_decision is_ok
decision_none env db = refl

-- One row of the loop.
listed : (env : Env) (db : Db) (code : List ℕ) (row : Jurisdiction) → Bool
listed env db code row =
    row.is_staging && is_ok (jurisdiction_decision env db (some row.code)) && code_beq row.code code

visible-any :
    (env : Env) (db : Db) (code : List ℕ) (rows : List Jurisdiction)
    → has_code (visible_jurisdictions env db rows) code ≡ any (listed env db code) rows
unfolding has_code visible_jurisdictions listed
visible-any env db code [] = refl
visible-any env db code (row ∷ rows) = ground (arith, visible-any env db code rows)

refused :
    (env : Env) (db : Db) (code : List ℕ) (rows : List Jurisdiction)
    → is_ok (jurisdiction_decision env db (some code)) ≡ false
    → any (listed env db code) rows ≡ false
unfolding listed
refused env db code [] h = refl
refused env db code (row ∷ rows) h =
    ground (arith, refused env db code rows, code_beq_sound row.code code)

granted :
    (env : Env) (db : Db) (code : List ℕ) (rows : List Jurisdiction) (row : Jurisdiction)
    → is_ok (jurisdiction_decision env db (some code)) ≡ true
    → find (λ j. code_beq j.code code) rows ≡ some row
    → row.is_staging ≡ true
    → any (listed env db code) rows ≡ true
unfolding listed
granted env db code [] row h f g = cc
granted env db code (r ∷ rows) row h f g =
    ground (arith, granted env db code rows row, code_beq_sound r.code code)

-- A decision that passes has found its staging row.
decision-row :
    (env : Env) (db : Db) (code : List ℕ)
    → is_ok (jurisdiction_decision env db (some code)) ≡ true
    → (row : Jurisdiction) × (find (λ j. code_beq j.code code) db.jurisdictions ≡ some row)
      × (row.is_staging ≡ true)
unfolding jurisdiction_decision is_ok
decision-row env db code h =
    elim (Option-cases (find (λ j. code_beq j.code code) db.jurisdictions)) [
      | inl e ↦ ground arith
      | inr (row, e) ↦ (row, e, ground arith)
    ]

-- The list of visible jurisdictions has a code exactly when the decision on that code grants it.
pub visible_lem :
    (env : Env) (db : Db) (code : List ℕ)
    → has_code (visible_jurisdictions env db db.jurisdictions) code
      ≡ is_ok (jurisdiction_decision env db (some code))
visible_lem env db code = elim (Bool-cases (is_ok (jurisdiction_decision env db (some code)))) [
  | inl yes' ↦
      let (row, f, g) = decision-row env db code yes' in
      visible-any env db code db.jurisdictions
      ∙ granted env db code db.jurisdictions row yes' f g
      ∙ sym yes'
  | inr no' ↦
      visible-any env db code db.jurisdictions ∙ refused env db code db.jurisdictions no' ∙ sym no'
]
