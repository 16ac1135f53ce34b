-- ===== src/Uid/Order.antt =====
-- The order of block UIDs.
use be_backup.Prelude.{◌≡◌, ◌⊎◌, true, false, arith, nat_eq}
use be_backup.Uid.{BlockUid, is_set, uid_lt, block_uid_eq}

-- Among UIDs that are set the order is strict and total: irreflexive, transitive, and of two that
-- differ one is smaller.
pub uid_lt_strict_order :
    ((a : BlockUid) → uid_lt a a ≡ false)
    × ((a b c : BlockUid) → uid_lt a b ≡ true → uid_lt b c ≡ true → uid_lt a c ≡ true)
    × ((a b : BlockUid)
        → is_set a ≡ true
        → is_set b ≡ true
        → (a ≡ b) ⊎ ((uid_lt a b ≡ true) ⊎ (uid_lt b a ≡ true)))
unfolding uid_lt
uid_lt_strict_order = (λ a. ground arith, λ a b c p q. ground arith, λ a b p q. ground arith)
