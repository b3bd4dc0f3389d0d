-- ===== src/Activity/Projection/Order.antt =====
-- internal/dshactivity/bridge.go: the order of the sessions is a total preorder.
use dsh_work.Prelude.{◌≡◌, refl, true, false, arith}
use dsh_work.Prelude.Int.{ℤ, less}
use dsh_work.Prelude.Order.{is_lt_trans, is_lt_asym}
use dsh_work.Activity.Session.{Activity}
use dsh_work.Activity.Projection.{comes_before}

less_trans : (u v w : ℤ) → less u v ≡ false → less v w ≡ false → less u w ≡ false
less_trans (ℤ.pos u) (ℤ.pos v) (ℤ.pos w) h k = ground arith
less_trans (ℤ.pos u) (ℤ.pos v) (ℤ.negsuc w) h k = refl
less_trans (ℤ.pos u) (ℤ.negsuc v) (ℤ.pos w) h k = ground arith
less_trans (ℤ.pos u) (ℤ.negsuc v) (ℤ.negsuc w) h k = refl
less_trans (ℤ.negsuc u) (ℤ.pos v) w h k = ground arith
less_trans (ℤ.negsuc u) (ℤ.negsuc v) (ℤ.pos w) h k = ground arith
less_trans (ℤ.negsuc u) (ℤ.negsuc v) (ℤ.negsuc w) h k = ground arith

less_asym : (u v : ℤ) → less u v ≡ true → less v u ≡ false
less_asym (ℤ.pos u) (ℤ.pos v) h = ground arith
less_asym (ℤ.pos u) (ℤ.negsuc v) h = ground arith
less_asym (ℤ.negsuc u) (ℤ.pos v) h = refl
less_asym (ℤ.negsuc u) (ℤ.negsuc v) h = ground arith

-- What goes before is taken as a test of its own, as the order of the identifiers is.
pub comes_before_trans :
    (a b c : Activity)
    → comes_before a b ≡ false
    → comes_before b c ≡ false
    → comes_before a c ≡ false
unfolding comes_before
comes_before_trans a b c h k = ground (
  arith,
  is_lt_trans a.session_id b.session_id c.session_id,
  less_trans a.updated_at b.updated_at c.updated_at,
  less_trans c.updated_at b.updated_at a.updated_at,
  less_asym a.updated_at b.updated_at,
  less_asym b.updated_at c.updated_at,
  less_asym a.updated_at c.updated_at,
)

pub comes_before_asym : (a b : Activity) → comes_before a b ≡ true → comes_before b a ≡ false
unfolding comes_before
comes_before_asym a b h = ground (
  arith,
  is_lt_asym a.session_id b.session_id,
  less_asym a.updated_at b.updated_at,
  less_asym b.updated_at a.updated_at,
)
