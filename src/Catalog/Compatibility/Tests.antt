-- ===== src/Catalog/Compatibility/Tests.antt =====
-- Runs of the version comparison, and the theorems at them.
use morningstar_modbus_api.Prelude.{◌≡◌, ◌≢◌, ◌↔◌, refl, Bool, true, none, some, [], ◌∷◌}
use morningstar_modbus_api.Prelude.Text.{text}
use morningstar_modbus_api.Prelude.Int.{pos, negsuc}
use morningstar_modbus_api.Errors.{ok, err, value_error, version_components}
use morningstar_modbus_api.Catalog.Compatibility.{
  Firmware, written, components, version_tuple, compare_versions, in_range,
}
use morningstar_modbus_api.Catalog.Compatibility.Order.{Precedes, IsSignOf, compare_versions_iff}
use morningstar_modbus_api.Catalog.Compatibility.Gates.{IsSince, IsUntil, in_range_iff}

abbrev installed : Firmware
installed = written (text "v19.2")

installed_version : version_tuple installed ≡ 19 ∷ 2 ∷ []
unfolding version_tuple components
installed_version = refl

trailing_zeros : compare_versions (written (text "7")) (written (text "7.0.0")) ≡ ok (pos 0)
unfolding compare_versions version_tuple components
trailing_zeros = refl

no_components :
    compare_versions (written (text "unknown")) installed ≡ err (value_error version_components)
unfolding compare_versions version_tuple components
no_components = refl

older : compare_versions (written (text "9.12")) installed ≡ ok (negsuc 0)
unfolding compare_versions version_tuple components
older = refl

compare_versions_iff_example :
    IsSignOf
      (Precedes (version_tuple (written (text "9.12"))) (version_tuple installed))
      (Precedes (version_tuple installed) (version_tuple (written (text "9.12"))))
      (negsuc 0)
compare_versions_iff_example =
    compare_versions_iff (written (text "9.12")) installed (negsuc 0) older

installed_has_version : version_tuple installed ≢ []
unfolding version_tuple components
installed_has_version = λ e. cc

since_has_version : version_tuple (written (text "10")) ≢ []
unfolding version_tuple components
since_has_version = λ e. cc

in_range_iff_example :
    (b : Bool) × (in_range installed (some (text "10")) none ≡ ok b)
    × ((b ≡ true) ↔ (IsSince installed (some (text "10")) × IsUntil installed none))
in_range_iff_example =
    in_range_iff installed (some (text "10")) none installed_has_version since_has_version tt

accepted : in_range installed (some (text "10")) none ≡ ok true
unfolding in_range compare_versions version_tuple components
accepted = refl
