-- ===== src/Auth/Tests.antt =====
-- An administrator asks to pair an agent.
use forget_ops.Auth.Laws.{can_by_rank}
use forget_ops.Auth.Permissions.{
  allowed, authorize, can, check_authorization, is_permission, is_role,
}
use forget_ops.Prelude.{false, ok, some, true, ◌↔◌, ◌≡◌}

can_by_rank_example :
    (can (some "reviewer") (some "pair_agent") ≡ true
      → can (some "admin") (some "pair_agent") ≡ true)
    × (can (some "admin") (some "pair_agent") ≡ true
        → can (some "owner") (some "pair_agent") ≡ true)
    × (can (some "owner") (some "pair_agent") ≡ is_permission (some "pair_agent"))
    × (is_role (some "admin") ≡ false → can (some "admin") (some "pair_agent") ≡ false)
    × ((authorize (some "admin") (some "pair_agent") ≡ ok tt)
        ↔ (can (some "admin") (some "pair_agent") ≡ true))
    × ((check_authorization (some "admin") (some "pair_agent") ≡ allowed)
        ↔ (can (some "admin") (some "pair_agent") ≡ true))
can_by_rank_example = can_by_rank (some "admin") (some "pair_agent")
