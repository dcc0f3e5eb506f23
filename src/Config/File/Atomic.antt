-- ===== src/Config/File/Atomic.antt =====
-- `config set` saves a valid configuration whole, or leaves the file as it was.
use reptile.Prelude.{◌≡◌, subst, refl, List, [], ◌∷◌, ◌++◌, arith}
use reptile.Text.Defs.{Text}
use reptile.Library.{Library}
use reptile.Result.{Result, ok, err, wrap, wrap-eq-ok, bind-eq-ok}
use reptile.Config.{Config}
use reptile.Config.Validate.{validate}
use reptile.Config.File.{
  Codec, Disk, SetError, not_valid, not_encoded, pair_up, or_defaults, apply_keys, prepare, finish,
  replace_file, save, load_config, set_config_file_keys,
}

-- The file holds a valid configuration, encoded, with a newline.
pub record IsSaved (lib : Library) (codec : Codec) (c : Config) (d : Disk) : Type 0 where
  pub valid : validate lib c ≡ ok tt
  pub text : Text
  pub encoded : codec.encode c ≡ ok text
  pub written : d.file ≡ ok (text ++ b'\n' ∷ [])

-- What `finish` and `prepare` return is valid, and is its encoding.
abbrev IsReady : Library → Codec → Config × Text → Type 0
IsReady lib codec (c, out) =
    (validate lib c ≡ ok tt)
    × ((text : Text) × (codec.encode c ≡ ok text) × (out ≡ text ++ b'\n' ∷ []))

finish-IsReady :
    (lib : Library) (codec : Codec) (c : Config) {r : Config × Text}
    → finish lib codec c ≡ ok r
    → IsReady lib codec r
unfolding finish
finish-IsReady lib codec c {r} h =
    let (u, valid, h1) = bind-eq-ok (wrap not_valid (validate lib c)) _ h in
    let (text, encoded, h2) = bind-eq-ok (wrap not_encoded (codec.encode c)) _ h1 in
    let same : (c, text ++ b'\n' ∷ []) ≡ r = cc (h2) in
    subst (IsReady lib codec) same (
      wrap-eq-ok not_valid (validate lib c) valid,
      (text, wrap-eq-ok not_encoded (codec.encode c) encoded, refl),
    )

prepare-IsReady :
    (lib : Library) (codec : Codec) (path : Text) (disk : Disk) (pairs : List Text)
    {r : Config × Text}
    → prepare lib codec path disk pairs ≡ ok r
    → IsReady lib codec r
unfolding prepare
prepare-IsReady lib codec path disk pairs h =
    let (ps, _, h1) = bind-eq-ok (pair_up pairs) _ h in
    let (old, _, h2) = bind-eq-ok (or_defaults (load_config lib codec path disk)) _ h1 in
    let (c, _, h3) = bind-eq-ok (apply_keys lib ps old) _ h2 in finish-IsReady lib codec c h3

save-atomic :
    (lib : Library) (codec : Codec) (disk : Disk) (r : Result SetError (Config × Text))
    → ((x : Config × Text) → r ≡ ok x → IsReady lib codec x)
    → ((c : Config) → (save disk r).result ≡ ok c → IsSaved lib codec c (save disk r).disk)
      × ((e : SetError) → (save disk r).result ≡ err e → (save disk r).disk.file ≡ disk.file)
unfolding save replace_file
save-atomic lib codec disk (err e) ready = (λ c h. cc, λ e h. refl)
save-atomic lib codec disk (ok (c, out)) ready = (λ d h. saved d h, λ e h. ground arith)
  where
    saved :
        (d : Config)
        → (save disk (ok (c, out))).result ≡ ok d
        → IsSaved lib codec d (save disk (ok (c, out))).disk
    saved d h =
        let (valid, (text, encoded, spelled)) = ready (c, out) refl in
        let same : c ≡ d = ground arith in
        record {
          valid = subst (λ x. validate lib x ≡ ok tt) same valid;
          text = text;
          encoded = subst (λ x. codec.encode x ≡ ok text) same encoded;
          written = ground arith;
        }

-- If the setting succeeds the file holds the returned configuration, which is valid; if it fails
-- the file is as it was.
pub set_config_file_keys_atomic :
    (lib : Library) (codec : Codec) (path : Text) (disk : Disk) (pairs : List Text)
    → let s = set_config_file_keys lib codec path disk pairs in
      ((c : Config) → s.result ≡ ok c → IsSaved lib codec c s.disk)
      × ((e : SetError) → s.result ≡ err e → s.disk.file ≡ disk.file)
unfolding set_config_file_keys
set_config_file_keys_atomic lib codec path disk pairs =
    save-atomic lib codec disk (prepare lib codec path disk pairs)
      (λ x h. prepare-IsReady lib codec path disk pairs h)
