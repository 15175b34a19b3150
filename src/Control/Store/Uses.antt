-- ===== src/Control/Store/Uses.antt =====
-- The uses of the invites of internal/store/members.go.
use mesh2mesh.Base.{
  length, any, keep, find, All, Text, text_eq, text_eq_iff, Bool-cases, ◌≤◌, ◌<◌, ◌≡◌, refl, ap,
  subst, inl, inr, Bool, true, false, some, List, [], ◌∷◌, map, arith,
}
use mesh2mesh.Control.Store.{InviteRow, use_up}
use mesh2mesh.Control.Store.Counts.{twice, count-map, count_none, counted_any, none_more, find-some}
use mesh2mesh.Control.Store.Owners.{only_one}

abbrev pub has_invite_id : Text → InviteRow → Bool
has_invite_id id i = text_eq i.id id

pub record IsCounted (rows : List InviteRow) : Type 0 where
  pub within : All (λ i. i.uses ≤ i.max_uses) rows
  pub id_once : (id : Text) → length (keep (has_invite_id id) rows) ≤ 1

use_up_none :
    (id : Text) (is : List InviteRow) → any (has_invite_id id) is ≡ false → map (use_up id) is ≡ is
use_up_none id [] n = refl
use_up_none id (i ∷ is) n =
    let here : text_eq i.id id ≡ false = ground arith in
    let later : any (has_invite_id id) is ≡ false = ground arith in
    rw (here, use_up_none id is later) refl

module _ (q : InviteRow → Bool) (left : (i : InviteRow) → q i ≡ true → i.uses < i.max_uses) where
  same_row : {i j : InviteRow} → some i ≡ some j → i ≡ j
  same_row e = cc

  -- The one invite with an id counts one use more; it had one left.
  use_up-within :
      (rows : List InviteRow) (i : InviteRow)
      → All (λ j. j.uses ≤ j.max_uses) rows
      → length (keep (has_invite_id i.id) rows) ≤ 1
      → find q rows ≡ some i
      → All (λ j. j.uses ≤ j.max_uses) (map (use_up i.id) rows)
  use_up-within [] i h once found = h
  use_up-within (j ∷ js) i (h, hs) once found = elim (Bool-cases (q j)) [
    | inl hit ↦
        let same : j ≡ i = same_row (rw hit at found) in
        let own : text_eq j.id i.id ≡ true = (text_eq_iff j.id i.id).1 (ap (λ x. x.id) same) in
        let alone : any (has_invite_id i.id) js ≡ false =
          none_more (has_invite_id i.id) js (rw own at once) in
        let room = left j hit in rw (own, use_up_none i.id js alone) (omega (arith, room), hs)
    | inr miss ↦
        let rest : find q js ≡ some i = rw miss at found in
        let later =
          (find-some q js i rest).1 (has_invite_id i.id) ((text_eq_iff i.id i.id).1 refl) in
        let other : text_eq j.id i.id ≡ false = elim (Bool-cases (text_eq j.id i.id)) [
          | inl same ↦ absurd (twice (counted_any (has_invite_id i.id) js later) (rw same at once))
          | inr differs ↦ differs
        ] in
        rw other (h, use_up-within js i hs (rw other at once) rest)
  ]

has_invite_id-use_up :
    (id other : Text) (i : InviteRow) → has_invite_id id (use_up other i) ≡ has_invite_id id i
has_invite_id-use_up id other i = ground arith

pub use_up-IsCounted :
    (q : InviteRow → Bool) (rows : List InviteRow) (i : InviteRow)
    → ((j : InviteRow) → q j ≡ true → j.uses < j.max_uses)
    → find q rows ≡ some i
    → IsCounted rows
    → IsCounted (map (use_up i.id) rows)
use_up-IsCounted q rows i left found h = record {
  within = use_up-within q left rows i h.within (h.id_once i.id) found;
  id_once = λ id. omega (
    arith,
    count-map (has_invite_id id) (use_up i.id) (has_invite_id-use_up id i.id) rows,
    h.id_once id,
  );
}

-- A new invite, with an id that no other has.
pub new_invite-IsCounted :
    (i : InviteRow) (rows : List InviteRow)
    → any (has_invite_id i.id) rows ≡ false
    → i.uses ≤ i.max_uses
    → IsCounted rows
    → IsCounted (i ∷ rows)
new_invite-IsCounted i rows absent l h = record {
  within = (l, h.within);
  id_once = λ id. elim (Bool-cases (text_eq i.id id)) [
    | inl same ↦
        let alone : any (has_invite_id id) rows ≡ false =
          subst (λ x. any (has_invite_id x) rows ≡ false) ((text_eq_iff i.id id).0 same) absent in
        rw same (only_one (count_none (has_invite_id id) rows alone))
    | inr other ↦ rw other (h.id_once id)
  ];
}
