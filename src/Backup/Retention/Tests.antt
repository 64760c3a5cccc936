-- ===== src/Backup/Retention/Tests.antt =====
-- The theorem on the retention at a concrete bucket.
use swirl_evo.Common.{ℕ, ◌≤◌, ◌≡◌, ◌≢◌, refl, true, [], ◌∷◌, none, some, Text, codes, text_eq}
use swirl_evo.Common.Dict.{Dict, lookup}
use swirl_evo.Backup.Retention.{Backup, apply_retention}
use swirl_evo.Backup.Retention.Newest.{IsBucket, apply_retention-newest}

abbrev nth : Text → ℕ → Backup
nth id created_at = record { id = id; source = codes "daily"; created_at = created_at }

abbrev bucket : Dict Text Backup
bucket = (codes "b1", nth (codes "b1") 5) ∷ (codes "b2", nth (codes "b2") 9) ∷ []

bucket-IsBucket : IsBucket bucket
unfolding lookup
bucket-IsBucket = ((refl, refl), ((refl, refl), tt))

apply_retention-newest_example :
    ((id : Text) (b : Backup)
      → lookup id bucket ≡ some b
      → b.source ≢ codes "daily"
      → lookup id (apply_retention (λ _. true) (codes "daily") 1 bucket).1 ≡ some b)
    × ((id : Text) (b : Backup) (id' : Text) (b' : Backup)
        → lookup id bucket ≡ some b
        → lookup id (apply_retention (λ _. true) (codes "daily") 1 bucket).1 ≡ none
        → lookup id' (apply_retention (λ _. true) (codes "daily") 1 bucket).1 ≡ some b'
        → b'.source ≡ codes "daily"
        → b.created_at ≤ b'.created_at)
apply_retention-newest_example = apply_retention-newest (codes "daily") 1 bucket bucket-IsBucket
