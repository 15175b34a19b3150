-- ===== src/Frontend/Members/Invites.antt =====
-- What the invite dialog of web/src/frontend/routes/admin/members.tsx can ask for.
use mesh2mesh.Base.{
  All, ◌==◌, Bool-cases, is_some, ℕ, ◌-◌, ◌≡◌, refl, ◌⊎◌, inl, inr, List, [], ◌∷◌, arith,
}
use mesh2mesh.Frontend.Api.{Call, create_invite}
use mesh2mesh.Frontend.Hooks.{is_sending}
use mesh2mesh.Frontend.Members.{
  expiries, audiences, InviteDialog, InviteEvent, chooses_role, chooses_expiry, chooses_uses,
  creates, creates_invite, creation_fails, closes, chosen, without, invite_step, after_events,
}

-- An invite as the dialog offers it.
abbrev pub IsOfferedInvite : Call → Type 0
IsOfferedInvite (create_invite t role ttl uses) =
    ((ttl ≡ 86400) ⊎ (ttl ≡ 604800) ⊎ (ttl ≡ 2592000)) × ((uses ≡ 1) ⊎ (uses ≡ 10))
IsOfferedInvite _ = ⊥

abbrev IsOffered : InviteDialog → Type 0
IsOffered d =
    IsOfferedInvite (create_invite [] d.role d.expiry d.uses) × All IsOfferedInvite d.unanswered

chosen_expiry :
    (i v : ℕ)
    → ((v ≡ 86400) ⊎ (v ≡ 604800) ⊎ (v ≡ 2592000))
    → (chosen expiries i v ≡ 86400)
      ⊎ (chosen expiries i v ≡ 604800)
      ⊎ (chosen expiries i v ≡ 2592000)
chosen_expiry i v h = ground arith

chosen_uses :
    (i v : ℕ) → ((v ≡ 1) ⊎ (v ≡ 10)) → (chosen audiences i v ≡ 1) ⊎ (chosen audiences i v ≡ 10)
chosen_uses i v h = ground arith

without-All : (k : ℕ) (cs : List Call) → All IsOfferedInvite cs → All IsOfferedInvite (without k cs)
without-All k [] h = tt
without-All k (c ∷ cs) (o, h) = elim (Bool-cases (k == 0)) [
  | inl newest ↦ rw newest h
  | inr older ↦ rw older (o, without-All (k - 1) cs h)
]

step-IsOffered : (e : InviteEvent) (d : InviteDialog) → IsOffered d → IsOffered (invite_step e d)
unfolding invite_step
step-IsOffered (chooses_role r) d h = elim (Bool-cases (is_some d.invite)) [
  | inl there ↦ rw there h
  | inr none_yet ↦ rw none_yet h
]
step-IsOffered (chooses_expiry i) d ((x, u), a) = elim (Bool-cases (is_some d.invite)) [
  | inl there ↦ rw there ((x, u), a)
  | inr none_yet ↦ rw none_yet ((chosen_expiry i d.expiry x, u), a)
]
step-IsOffered (chooses_uses i) d ((x, u), a) = elim (Bool-cases (is_some d.invite)) [
  | inl there ↦ rw there ((x, u), a)
  | inr none_yet ↦ rw none_yet ((x, chosen_uses i d.uses u), a)
]
step-IsOffered (creates t) d (o, a) = elim (Bool-cases (is_some d.invite)) [
  | inl there ↦ rw there (o, a)
  | inr none_yet ↦ elim (Bool-cases (is_sending d.request)) [
    | inl busy ↦ rw (none_yet, busy) (o, a)
    | inr free ↦ rw (none_yet, free) (o, (o, a))
  ]
]
step-IsOffered (creates_invite k i) d (o, a) = (o, without-All k d.unanswered a)
step-IsOffered (creation_fails k m) d (o, a) = (o, without-All k d.unanswered a)
step-IsOffered closes d h = h

always-IsOffered : (es : List InviteEvent) → IsOffered (after_events es)
unfolding after_events
always-IsOffered [] = ((inr (inl refl), inl refl), tt)
always-IsOffered (e ∷ es) = step-IsOffered e (after_events es) (always-IsOffered es)

-- Whatever the user and the server do, each request of the dialog that is not answered yet is for an
-- invite that it offers: for 1, 7 or 30 days, and for one person or ten.
pub after_events-IsOfferedInvite :
    (es : List InviteEvent) → All IsOfferedInvite (after_events es).unanswered
after_events-IsOfferedInvite es = (always-IsOffered es).1
