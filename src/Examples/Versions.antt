-- ===== src/Examples/Versions.antt =====
-- semver.go: a lite release beside the stable one.
use cursor_byok_lite.Prelude.{◌≡◌, refl}
use cursor_byok_lite.Prelude.Int.{pos}
use cursor_byok_lite.Prelude.Text.{codes, str_eq, trim_space}
use cursor_byok_lite.Semver.{
  compare_versions, compare_version_numbers, compare_from, version_number_at, parse_version, trim_v,
  cut_dash, split_dots, atoi, parse_int, parse_limited, parse_digits,
}
use cursor_byok_lite.Semver.Order.{negate, compare_versions-swap, compare_versions-lite}

compare_versions-swap_example :
    compare_versions (codes "v1.10") (codes "1.9.7")
    ≡ negate (compare_versions (codes "1.9.7") (codes "v1.10"))
compare_versions-swap_example = compare_versions-swap (codes "1.9.7") (codes "v1.10")

compare_versions-lite_example : compare_versions (codes "v1.2-lite") (codes "1.2.0-rc1") ≡ pos 1
unfolding compare_version_numbers compare_from version_number_at parse_version trim_v cut_dash
    split_dots atoi parse_int parse_limited parse_digits trim_space str_eq
compare_versions-lite_example =
    compare_versions-lite (codes "v1.2-lite") (codes "1.2.0-rc1") refl refl refl
