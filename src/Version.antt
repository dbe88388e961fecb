-- ===== src/Version.antt =====
-- ossl/ossl.go: the comparison of the version of the library that is loaded.
pub mod Order
pub mod Tests
use ossl_go.Prelude.{ℕ, ◌/◌, ◌%◌, Bool, ◌&&◌, ◌||◌, ◌==◌, ltb, leb}
use ossl_go.Prelude.Int.{ℤ}
use ossl_go.Params.{wrap}

-- `AtLeast(major, minor)`, for the answer `v` of `VersionNumber()`; `x & 0xff` is `x % 256`.
unfoldable pub at_least : ℕ → ℤ → ℤ → Bool
at_least v major minor =
    let m = v / 268435456 % 256 in
    ltb (wrap 64 major) m || ((m == wrap 64 major) && leb (wrap 64 minor) (v / 1048576 % 256))
