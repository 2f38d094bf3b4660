-- ===== src/Webhook/Precedence.antt =====
-- What decides a setting: the annotation, the ConfigMap, or the default.
use criu_migration_operator.Base.{
  ◌≡◌, ◌≢◌, ◌⊎◌, refl, String, Bool, false, List, [], ◌∷◌, Option, none, some, Map, index, lookup,
  str_eq, eq_iff, All, Bool-cases, inl, inr, arith,
}
use criu_migration_operator.Webhook.Config.{
  WebhookConfig, override, override_flag, set_text, set_flag, equal_fold, load_config,
  merge_annotations,
}

-- A setting: its annotation, its key in the ConfigMap, and what it is where neither says.
pub record Setting (A : Type 0) : Type 0 where
  pub annotation : String
  pub key : String
  pub fallback : A
  pub value : WebhookConfig → A

abbrev pub texts : List (Setting String)
texts =
    record {
      annotation = "migration.io/bucket";
      key = "bucket";
      fallback = "checkpoints";
      value = λ c. c.bucket;
    }
    ∷ record {
      annotation = "migration.io/region";
      key = "region";
      fallback = "us-east-1";
      value = λ c. c.region;
    }
    ∷ record {
      annotation = "migration.io/endpoint";
      key = "endpoint";
      fallback = "";
      value = λ c. c.endpoint;
    }
    ∷ record {
      annotation = "migration.io/download-endpoint";
      key = "downloadEndpoint";
      fallback = "";
      value = λ c. c.download_endpoint;
    }
    ∷ record {
      annotation = "migration.io/storage-type";
      key = "storageType";
      fallback = "s3";
      value = λ c. c.storage_type;
    }
    ∷ record {
      annotation = "migration.io/credentials-secret";
      key = "credentialsSecret";
      fallback = "migration-credentials";
      value = λ c. c.credentials_secret;
    }
    ∷ record {
      annotation = "migration.io/strategy";
      key = "strategy";
      fallback = "lazy-storage";
      value = λ c. c.strategy;
    }
    ∷ record {
      annotation = "migration.io/checkpoint-interval";
      key = "checkpointInterval";
      fallback = "30s";
      value = λ c. c.checkpoint_interval;
    }
    ∷ []

abbrev pub flags : List (Setting Bool)
flags =
    record {
      annotation = "migration.io/direct-upload";
      key = "directUpload";
      fallback = false;
      value = λ c. c.direct_upload;
    }
    ∷ record {
      annotation = "migration.io/async-prefetch";
      key = "asyncPrefetch";
      fallback = false;
      value = λ c. c.async_prefetch;
    }
    ∷ record {
      annotation = "migration.io/log-upload";
      key = "logUpload";
      fallback = false;
      value = λ c. c.log_upload;
    }
    ∷ record {
      annotation = "migration.io/express-one-zone";
      key = "expressOneZone";
      fallback = false;
      value = λ c. c.express_one_zone;
    }
    ∷ []

-- The value is the annotation's, if that is not empty, else the ConfigMap's, if it has the key, else the
-- fallback, where the two texts are read by `says` and `reads`.
abbrev pub Chosen :
    {A : Type 0} → (says reads : String → A) → Map → Map → WebhookConfig → Setting A → Type 0
Chosen says reads a d c s =
    ((index a s.annotation ≢ "") × (s.value c ≡ says (index a s.annotation)))
    ⊎ ((index a s.annotation ≡ "")
        × (((text : String) × ((lookup s.key d ≡ some text) × (s.value c ≡ reads text)))
            ⊎ ((lookup s.key d ≡ none) × (s.value c ≡ s.fallback))))

abbrev pub same : String → String
same text = text

-- Without regard to case, and with it.
abbrev pub is_true_fold : String → Bool
is_true_fold text = equal_fold text "true"

abbrev pub is_true : String → Bool
is_true text = str_eq text "true"

override-Chosen :
    (v : String) (o : Option String) (fallback : String)
    → ((v ≢ "") × (override v (set_text o fallback) ≡ v))
      ⊎ ((v ≡ "")
          × (((text : String) × ((o ≡ some text) × (override v (set_text o fallback) ≡ text)))
              ⊎ ((o ≡ none) × (override v (set_text o fallback) ≡ fallback))))
unfolding override
override-Chosen v none fallback = elim (Bool-cases (str_eq v "")) [
  | inl e ↦ rw e (inr (ground (arith, e, eq_iff v ""), inr (refl, refl)))
  | inr e ↦ rw e (inl (ground (arith, e, eq_iff v ""), refl))
]
override-Chosen v (some text) fallback = elim (Bool-cases (str_eq v "")) [
  | inl e ↦ rw e (inr (ground (arith, e, eq_iff v ""), inl (text, (refl, refl))))
  | inr e ↦ rw e (inl (ground (arith, e, eq_iff v ""), refl))
]

override_flag-Chosen :
    (v : String) (o : Option String) (fallback : Bool)
    → ((v ≢ "") × (override_flag v (set_flag o fallback) ≡ is_true_fold v))
      ⊎ ((v ≡ "")
          × (((text : String) × ((o ≡ some text)
                  × (override_flag v (set_flag o fallback) ≡ is_true text)))
              ⊎ ((o ≡ none) × (override_flag v (set_flag o fallback) ≡ fallback))))
unfolding override_flag
override_flag-Chosen v none fallback = elim (Bool-cases (str_eq v "")) [
  | inl e ↦ rw e (inr (ground (arith, e, eq_iff v ""), inr (refl, refl)))
  | inr e ↦ rw e (inl (ground (arith, e, eq_iff v ""), refl))
]
override_flag-Chosen v (some text) fallback = elim (Bool-cases (str_eq v "")) [
  | inl e ↦ rw e (inr (ground (arith, e, eq_iff v ""), inl (text, (refl, refl))))
  | inr e ↦ rw e (inl (ground (arith, e, eq_iff v ""), refl))
]

-- Each of the eight texts and four flags of the two tables is what its own annotation says, if that is not
-- empty, else what its own key of the ConfigMap says, if there is one, else its fallback. A flag's annotation
-- is read without regard to case, its key with it.
pub merge_annotations-Chosen :
    (a d : Map)
    → let c = merge_annotations a (load_config d) in
      All (Chosen same same a d c) texts × All (Chosen is_true_fold is_true a d c) flags
unfolding merge_annotations load_config
merge_annotations-Chosen a d =
    let text = λ (annotation key fallback : String).
      override-Chosen (index a annotation) (lookup key d) fallback in
    let flag =
      λ (annotation key : String). override_flag-Chosen (index a annotation) (lookup key d) false in
    (
      (
        text "migration.io/bucket" "bucket" "checkpoints",
        (
          text "migration.io/region" "region" "us-east-1",
          (
            text "migration.io/endpoint" "endpoint" "",
            (
              text "migration.io/download-endpoint" "downloadEndpoint" "",
              (
                text "migration.io/storage-type" "storageType" "s3",
                (
                  text "migration.io/credentials-secret" "credentialsSecret"
                      "migration-credentials",
                  (
                    text "migration.io/strategy" "strategy" "lazy-storage",
                    (text "migration.io/checkpoint-interval" "checkpointInterval" "30s", tt),
                  ),
                ),
              ),
            ),
          ),
        ),
      ),
      (
        flag "migration.io/direct-upload" "directUpload",
        (
          flag "migration.io/async-prefetch" "asyncPrefetch",
          (
            flag "migration.io/log-upload" "logUpload",
            (flag "migration.io/express-one-zone" "expressOneZone", tt),
          ),
        ),
      ),
    )
