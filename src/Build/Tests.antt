-- ===== src/Build/Tests.antt =====
-- The reading of a lock file with two packages, and what a build with every feature reports.
use icebergr.Prelude.{◌≡◌, refl, [], ◌∷◌, true, some, none}
use icebergr.Prelude.Text.{Text, codes}
use icebergr.Catalog.{Features}
use icebergr.Build.Lock.{locked_version, lines, locked_version-first}

abbrev lock : Text
lock =
    codes
      "version = 4\n\n[[package]]\nname = \"iceberg-catalog\"\nversion = \"1\"\n\n[[package]]\nname = \"iceberg\"\r\nversion = \"0.7\"\n"

catalog_package_is_skipped : locked_version lock (codes "iceberg") ≡ some (codes "0.7")
unfolding locked_version
catalog_package_is_skipped = refl

missing_package_has_no_version : locked_version lock (codes "arrow") ≡ none
unfolding locked_version
missing_package_has_no_version = refl

locked_version-first_example : locked_version lock (codes "iceberg") ≡ some (codes "0.7")
unfolding lines
locked_version-first_example =
    locked_version-first lock (codes "iceberg") (codes "0.7") (codes "name = \"iceberg\"")
      (codes "version = \"0.7\"")
      (codes "version = 4"
        ∷ []
        ∷ codes "[[package]]"
        ∷ codes "name = \"iceberg-catalog\""
        ∷ codes "version = \"1\""
        ∷ []
        ∷ codes "[[package]]"
        ∷ [])
      [] refl (refl, (refl, (refl, (refl, (refl, (refl, (refl, tt))))))) refl refl

abbrev every_feature : Features
every_feature = record { s3 = true; glue = true }
