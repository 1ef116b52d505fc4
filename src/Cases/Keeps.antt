-- ===== src/Cases/Keeps.antt =====
-- What the commands of src/lib/service-cases.ts keep of a case: its id always, its state mostly.
use rent_a_4_wheel.Prelude.{◌≡◌, refl, Bool, true, false, ok, arith}
use rent_a_4_wheel.Cases.Rows.{Action, ServiceCase, CaseDb}
use rent_a_4_wheel.Cases.Context.{CaseCommand, Context}
use rent_a_4_wheel.Cases.Assignments.{
  assign_case, escalate_case, reference_photo, clear_safety, take_over, override_case,
}
use rent_a_4_wheel.Cases.Transitions.{transition_case, appeal_case, rate_case}
use rent_a_4_wheel.Cases.Command.{decide}

-- Which commands move a case.
abbrev pub moves_state : Action → Bool
moves_state Action.transition = true
moves_state Action.override = true
moves_state Action.appeal = true
moves_state _ = false

module _ (x : Context) (q : CaseCommand) (c : ServiceCase) (db : CaseDb) where
  abbrev KeepsId : ServiceCase → Type 0
  KeepsId d = d.id ≡ c.id

  abbrev Keeps : ServiceCase → Type 0
  Keeps d = (d.id ≡ c.id) × (d.state ≡ c.state)

  assign-Keeps : (d : ServiceCase) → assign_case x q c db ≡ ok d → Keeps d
  unfolding assign_case
  assign-Keeps d h = ground arith

  escalate-Keeps : (d : ServiceCase) → escalate_case x c ≡ ok d → Keeps d
  unfolding escalate_case
  escalate-Keeps d h = ground arith

  reference-Keeps : (d : ServiceCase) → reference_photo q c db ≡ ok d → Keeps d
  unfolding reference_photo
  reference-Keeps d h = ground arith

  clear_safety-Keeps : (d : ServiceCase) → clear_safety x c db ≡ ok d → Keeps d
  unfolding clear_safety
  clear_safety-Keeps d h = ground arith

  take_over-Keeps : (d : ServiceCase) → take_over x c db ≡ ok d → Keeps d
  unfolding take_over
  take_over-Keeps d h = ground arith

  rate-Keeps : (d : ServiceCase) → rate_case x q c ≡ ok d → Keeps d
  unfolding rate_case
  rate-Keeps d h = ground arith

  reply-Keeps : (d : ServiceCase) → decide Action.reply x q c db ≡ ok d → Keeps d
  unfolding decide
  reply-Keeps d h = ground arith

  internal-Keeps : (d : ServiceCase) → decide Action.internal x q c db ≡ ok d → Keeps d
  unfolding decide
  internal-Keeps d h = ground arith

  override-KeepsId : (d : ServiceCase) → override_case x q c db ≡ ok d → KeepsId d
  unfolding override_case
  override-KeepsId d h = ground arith

  appeal-KeepsId : (d : ServiceCase) → appeal_case x c db ≡ ok d → KeepsId d
  unfolding appeal_case
  appeal-KeepsId d h = ground arith

  transition-KeepsId : (d : ServiceCase) → transition_case x q c db ≡ ok d → KeepsId d
  unfolding transition_case
  transition-KeepsId d h = ground arith

  pub decide-Keeps :
      (a : Action) (d : ServiceCase)
      → moves_state a ≡ false
      → decide a x q c db ≡ ok d
      → (d.id ≡ c.id) × (d.state ≡ c.state)
  unfolding decide
  decide-Keeps Action.reply d m h = reply-Keeps d h
  decide-Keeps Action.internal d m h = internal-Keeps d h
  decide-Keeps Action.assign d m h = assign-Keeps d h
  decide-Keeps Action.escalate d m h = escalate-Keeps d h
  decide-Keeps Action.satisfaction d m h = rate-Keeps d h
  decide-Keeps Action.takeover d m h = take_over-Keeps d h
  decide-Keeps Action.safety_clear d m h = clear_safety-Keeps d h
  decide-Keeps Action.reference d m h = reference-Keeps d h
  decide-Keeps Action.transition d m h = cc
  decide-Keeps Action.override d m h = cc
  decide-Keeps Action.appeal d m h = cc

  pub decide-id : (a : Action) (d : ServiceCase) → decide a x q c db ≡ ok d → d.id ≡ c.id
  unfolding decide
  decide-id Action.transition d h = transition-KeepsId d h
  decide-id Action.override d h = override-KeepsId d h
  decide-id Action.appeal d h = appeal-KeepsId d h
  decide-id Action.reply d h = (decide-Keeps Action.reply d refl h).0
  decide-id Action.internal d h = (decide-Keeps Action.internal d refl h).0
  decide-id Action.assign d h = (decide-Keeps Action.assign d refl h).0
  decide-id Action.escalate d h = (decide-Keeps Action.escalate d refl h).0
  decide-id Action.satisfaction d h = (decide-Keeps Action.satisfaction d refl h).0
  decide-id Action.takeover d h = (decide-Keeps Action.takeover d refl h).0
  decide-id Action.safety_clear d h = (decide-Keeps Action.safety_clear d refl h).0
  decide-id Action.reference d h = (decide-Keeps Action.reference d refl h).0

  pub decide-kind : (a : Action) (d : ServiceCase) → decide a x q c db ≡ ok d → d.kind ≡ c.kind
  unfolding decide assign_case escalate_case reference_photo clear_safety take_over override_case
      transition_case appeal_case rate_case
  decide-kind Action.reply d h = ground arith
  decide-kind Action.internal d h = ground arith
  decide-kind Action.assign d h = ground arith
  decide-kind Action.escalate d h = ground arith
  decide-kind Action.satisfaction d h = ground arith
  decide-kind Action.takeover d h = ground arith
  decide-kind Action.safety_clear d h = ground arith
  decide-kind Action.reference d h = ground arith
  decide-kind Action.transition d h = ground arith
  decide-kind Action.override d h = ground arith
  decide-kind Action.appeal d h = ground arith
