-- ===== src/Auth/Laws.antt =====
-- Who may do what.
use forget_ops.Auth.Permissions.{
  allowed, authorize, can, check_authorization, is_permission, is_role,
}
use forget_ops.Prelude.{Option, String, arith, false, ok, some, true, ◌↔◌, ◌≡◌}

-- The three roles are ordered: what a reviewer may do an administrator may, what an administrator
-- may do an owner may, an owner may do exactly what is a permission, and who is of no role may do
-- nothing. `authorize` and `checkAuthorization` let through exactly what `can` allows.
pub can_by_rank :
    (role permission : Option String)
    → (can (some "reviewer") permission ≡ true → can (some "admin") permission ≡ true)
      × (can (some "admin") permission ≡ true → can (some "owner") permission ≡ true)
      × (can (some "owner") permission ≡ is_permission permission)
      × (is_role role ≡ false → can role permission ≡ false)
      × ((authorize role permission ≡ ok tt) ↔ (can role permission ≡ true))
      × ((check_authorization role permission ≡ allowed) ↔ (can role permission ≡ true))
unfolding can authorize check_authorization
can_by_rank role permission = (
  ground arith,
  ground arith,
  ground arith,
  ground arith,
  (ground arith, ground arith),
  (ground arith, ground arith),
)
