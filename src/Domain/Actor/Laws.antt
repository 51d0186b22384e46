-- ===== src/Domain/Actor/Laws.antt =====
-- internal/domain/actor.go: the two lists of actor types.
use elysium.Prelude.{◌≡◌, true, Text, mem_text, arith}
use elysium.Domain.Actor.{is_org_staff, is_valid}

-- Every type of the organisation's staff is a valid actor type.
pub org_staff-valid : (t : Text) → is_org_staff t ≡ true → is_valid t ≡ true
unfolding is_org_staff is_valid mem_text
org_staff-valid t h = ground arith
