-- ===== src/Sdk/Persists.antt =====
-- client/client.go, `saveSnapshot` and `loadSnapshot`: what is in the file of the snapshot.
use Prim.Native.String.{count}
use text.Mathlib.TextLemmas.{length-append}
use mizuflow.Base.{
  String, ◌≡◌, ◌≢◌, ◌⊎◌, refl, sym, ap, ◌∙◌, Bool, true, false, Option, none, some, inl, inr,
  Bool-cases, Option-cases, arith,
}
use mathlib.Core.Option.{some-injective}
use mizuflow.Sdk.{
  MizuClient, Settings, SnapshotJson, Files, snapshot_of, temp_file, write_snapshot, save_snapshot,
  load_saved, load_text, loaded, start_client, fetch_features,
}

-- What is relied on of the file system. A write may leave anything in its own file, and a rename that fails leaves
-- the other files.
pub record FileLaws {F : Type 0} (files : Files F) : Type 0 where
  pub content : F → String → Option String
  pub writes :
      (path bytes : String) (f : F)
      → (files.write_file path bytes f).0 ≡ true
      → content (files.write_file path bytes f).1 path ≡ some bytes
  pub write_keeps :
      (path bytes other : String) (f : F)
      → other ≢ path
      → content (files.write_file path bytes f).1 other ≡ content f other
  pub renames :
      (old path : String) (f : F)
      → (files.rename old path f).0 ≡ true
      → content (files.rename old path f).1 path ≡ content f old
  pub rename_fails :
      (old path : String) (f : F)
      → (files.rename old path f).0 ≡ false
      → content (files.rename old path f).1 path ≡ content f path
  pub reads :
      (path s : String) (f : F) → (files.read_file path f).0 ≡ some s → content f path ≡ some s

temp_file_differs : (s : Settings) → s.cache_file ≢ temp_file s
temp_file_differs s h = omega (arith, length-append s.cache_file ".tmp", ap count h)

module _ {F : Type 0} (json : SnapshotJson) {files : Files F} (laws : FileLaws files)
    (settings : Settings) where
  open laws use {content, writes, write_keeps, renames, rename_fails, reads}

  -- What the file of the snapshot holds.
  abbrev pub kept : F → Option String
  kept f = content f settings.cache_file

  write_snapshot_atomic :
      (bytes : String) (f : F)
      → (kept (write_snapshot json files settings bytes f) ≡ kept f)
        ⊎ (kept (write_snapshot json files settings bytes f) ≡ some bytes)
  unfolding write_snapshot
  write_snapshot_atomic bytes f =
      let written = files.write_file (temp_file settings) bytes f in
      let others =
        write_keeps (temp_file settings) bytes settings.cache_file f (temp_file_differs settings) in
      elim (Bool-cases written.0) [
        | inr bad ↦ inl (rw bad others)
        | inl good ↦
            elim (Bool-cases (files.rename (temp_file settings) settings.cache_file written.1).0) [
              | inr stays ↦ inl (
                  rw good (
                    rename_fails (temp_file settings) settings.cache_file written.1 stays ∙ others))
              | inl moved ↦ inr (
                  rw good (
                    renames (temp_file settings) settings.cache_file written.1 moved
                    ∙ writes (temp_file settings) bytes f good))
            ]
      ]

  -- Whatever fails in a save, the file of the snapshot then holds what it held before, or the whole snapshot of the
  -- client.
  pub save_snapshot_atomic :
      (c : MizuClient) (f : F)
      → (kept (save_snapshot json files settings c f) ≡ kept f)
        ⊎ (json.marshal (snapshot_of c) ≡ kept (save_snapshot json files settings c f))
  unfolding save_snapshot
  save_snapshot_atomic c f = elim (Option-cases (json.marshal (snapshot_of c))) [
    | inl failed ↦ inl (rw (failed, save_snapshot) refl)
    | inr (bytes, e) ↦ elim (write_snapshot_atomic bytes f) [
      | inl same ↦ inl (rw (e, save_snapshot) same)
      | inr new ↦ inr (rw (e, save_snapshot) (sym new))
    ]
  ]

  loaded_flag : {A : Type 0} → Bool × A → Bool
  loaded_flag (b, a) = b

  loaded_inv :
      (fresh c : MizuClient) (text : Option String)
      → load_text json files settings fresh text ≡ (true, c)
      → (s : String) × (text ≡ some s) × (json.unmarshal s ≡ some (snapshot_of c))
  loaded_inv fresh c none h = absurd (cc)
  loaded_inv fresh c (some s) h = elim (Option-cases (json.unmarshal s)) [
    | inl bad ↦ absurd (not_loaded (rw bad at h))
    | inr (snap, good) ↦
        (s, refl, good ∙ ap (λ (p : Bool × MizuClient). some (snapshot_of p.1)) (rw good at h))
  ]
    where
      not_loaded : ◌≢◌ {A = Bool × MizuClient} (false, fresh) (true, c)
      not_loaded e = cc

  -- A client that starts without the server after another has saved, whatever failed in the save, has either the
  -- features and the revision that the other client had, or those of the file before, where what is written of a
  -- snapshot reads back.
  pub start_client-save_snapshot :
      (c fresh started : MizuClient) (f : F)
      → ((bytes : String)
          → json.marshal (snapshot_of c) ≡ some bytes
          → json.unmarshal bytes ≡ some (snapshot_of c))
      → (start_client json files settings none fresh (save_snapshot json files settings c f)).0
        ≡ (true, started)
      → (snapshot_of started ≡ snapshot_of c)
        ⊎ ((s : String) × (kept f ≡ some s) × (json.unmarshal s ≡ some (snapshot_of started)))
  unfolding start_client fetch_features load_saved
  start_client-save_snapshot c fresh started f back h =
      let f' = save_snapshot json files settings c f in
      let (s, text, decoded) =
        loaded_inv fresh started (files.read_file settings.cache_file f').0 h in
      let held = reads settings.cache_file s f' text in
      elim (save_snapshot_atomic c f) [
        | inl same ↦ inr (s, sym same ∙ held, decoded)
        | inr new ↦ inl (some-injective _ _ (sym decoded ∙ back s (new ∙ held)))
      ]

  kept-saved :
      (c : MizuClient) (bytes : String) (f : F)
      → json.marshal (snapshot_of c) ≡ some bytes
      → (files.write_file (temp_file settings) bytes f).0 ≡ true
      → (files.rename
          (temp_file settings)
          settings.cache_file
          (files.write_file (temp_file settings) bytes f).1).0
        ≡ true
      → kept (save_snapshot json files settings c f) ≡ some bytes
  unfolding save_snapshot write_snapshot
  kept-saved c bytes f written ok moved =
      rw (written, save_snapshot, ok, write_snapshot)
        (renames (temp_file settings) settings.cache_file
            (files.write_file (temp_file settings) bytes f).1 moved
          ∙ writes (temp_file settings) bytes f ok)

  -- Where the write and the rename of a save come back without an error, the file can be read then and the text
  -- of the snapshot reads back, a client that starts without the server has the features and the revision of
  -- the one that saved.
  pub start_client-saved :
      (c fresh : MizuClient) (bytes s : String) (f : F)
      → json.marshal (snapshot_of c) ≡ some bytes
      → json.unmarshal bytes ≡ some (snapshot_of c)
      → (files.write_file (temp_file settings) bytes f).0 ≡ true
      → (files.rename
          (temp_file settings)
          settings.cache_file
          (files.write_file (temp_file settings) bytes f).1).0
        ≡ true
      → (files.read_file settings.cache_file (save_snapshot json files settings c f)).0 ≡ some s
      → (start_client json files settings none fresh (save_snapshot json files settings c f)).0
        ≡ (true, record fresh { features = c.features; last_rev = c.last_rev })
  unfolding start_client fetch_features load_saved
  start_client-saved c fresh bytes s f written back ok moved text =
      let held = reads settings.cache_file s (save_snapshot json files settings c f) text in
      let same : s ≡ bytes =
        some-injective _ _ (sym held ∙ kept-saved c bytes f written ok moved) in
      ap (load_text json files settings fresh) text
      ∙ ap (loaded json files settings fresh) (ap json.unmarshal same ∙ back)
