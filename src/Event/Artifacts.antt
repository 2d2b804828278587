-- ===== src/Event/Artifacts.antt =====
-- `ArtifactStore` over LocalR2Fallback (src/event/r2-store.js), for artifacts that are texts. The digest
-- comes from outside.
use finalbuilds.Prelude.{ℕ, zero, suc, String, Bool, Option, none, some, ◌==◌, length}
use finalbuilds.Prelude.Text.{◌<+>◌, slice}
use finalbuilds.Prelude.Paths.{join}
use finalbuilds.Prelude.Dict.{Dict, lookup, insert}
use finalbuilds.Model.Value.{Value}
use finalbuilds.Contract.Letters.{codes}

-- `s.slice(n)`
abbrev pub slice_from : ℕ → String → String
slice_from zero s = s
slice_from (suc n) String.[] = ""
slice_from (suc n) (String.◌∷◌ c s) = slice_from n s

-- `_artifactKey(sha256, filename)`
unfoldable pub artifact_key : String → String → String
artifact_key sha256 filename =
    "artifacts/sha256/"
    <+> (slice 2 sha256 <+> ("/" <+> (slice_from 2 sha256 <+> ("/" <+> filename))))

pub record Artifact : Type 0 where
  pub artifact_id : String
  pub sha256 : String
  pub size_bytes : ℕ
  pub storage_uri : String
  pub producer_event_id : Value

module _ (digest : String → String) (base : String) where
  -- `path.join(this.r2.baseDir, key)`
  unfoldable pub path_of : String → String → String
  unfolding artifact_key join
  path_of sha256 filename = join base (artifact_key sha256 filename)

  -- `store(data, filename, producerEventId)`
  unfoldable pub store : String → String → Value → Dict String → Artifact × Dict String
  unfolding artifact_key path_of
  store contents filename producer files =
      let sha256 = digest contents in
      (
        record {
          artifact_id = "art_" <+> slice 16 sha256;
          sha256 = sha256;
          size_bytes = length (codes contents);
          storage_uri = "r2://local/" <+> artifact_key sha256 filename;
          producer_event_id = producer;
        },
        insert (path_of sha256 filename) contents files,
      )

  abbrev pub checked : String → Option String → Option Bool
  checked sha256 none = none
  checked sha256 (some contents) = some (digest contents == sha256)

  -- `verify(sha256, filename)`: `none` is the error of a file that is missing.
  unfoldable pub verify : String → String → Dict String → Option Bool
  unfolding path_of
  verify sha256 filename files = checked sha256 (lookup (path_of sha256 filename) files)
