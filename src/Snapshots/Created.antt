-- ===== src/Snapshots/Created.antt =====
-- CreateSnapshot: what the returned ID says, and which names it refuses.
use nasty_csi.Common.{
  List, [], ◌∷◌, sym, subst, eq_iff, ◌≡◌, ◌≢◌, ◌⊎◌, refl, String, true, false, Option, none, some,
  ◌==◌, ◌&&◌, ◌||◌, arith, Bool-cases, inl, inr,
}
use nasty_csi.Common.Int.{ℤ, is_positive}
use nasty_csi.Common.Result.{
  Result, ok, err, Code, already_exists, internal, invalid_argument, map_err, refuse_if,
}
use nasty_csi.Common.Act.{lift, attempt}
use nasty_csi.Common.Returns.{
  Returns, returns_pure, returns_lift, returns_bind, returns_after, returns_if,
}
use nasty_csi.Volume.{Subvolume, split_subvolume_id}
use nasty_csi.Api.{Client}
use nasty_csi.Api.Backed.{IsIn, first, further}
use nasty_csi.Snapshot.{SnapshotIdError, encode_snapshot_id}
use nasty_csi.Snapshots.{
  timed_entry, described, SnapshotInfo, SnapshotServer, SnapshotRequest, SnapshotEntry,
  source_protocol, taken_answer, source_of, time_of, csi_snapshot_creation_time,
  snapshot_creation_times, timed_entry, described, encoded, metadata_of, existing_snapshot,
  created_snapshot, new_snapshot, create_or_return, create_snapshot, has_snapshot, is_taken,
}

-- The entry is of the snapshot that was asked for, with a creation time.
pub record IsOf (req : SnapshotRequest) (entry : SnapshotEntry) : Type 0 where
  pub protocol : String
  pub encodes :
      encode_snapshot_id (record {
        snapshot_name = req.name;
        source_volume = req.source_volume_id;
        protocol = protocol;
      })
      ≡ ok entry.snapshot_id
  pub source : entry.source_volume_id ≡ req.source_volume_id
  pub timed : is_positive entry.creation_time ≡ true

-- One of the subvolumes has a snapshot of the name, and is not the source.
pub data IsTakenElsewhere (filesystem subvolume name : String) : List Subvolume → Type 0 where
  here :
      {s : Subvolume} {subvolumes : List Subvolume}
      → IsIn name s.snapshots
      → ¬ ((s.filesystem ≡ filesystem) × (s.name ≡ subvolume))
      → IsTakenElsewhere filesystem subvolume name (s ∷ subvolumes)
  later :
      {s : Subvolume} {subvolumes : List Subvolume}
      → IsTakenElsewhere filesystem subvolume name subvolumes
      → IsTakenElsewhere filesystem subvolume name (s ∷ subvolumes)

not_equal : (a b : String) → a ≢ b → (a == b) ≡ false
not_equal a b n = elim (Bool-cases (a == b)) [ inl e ↦ absurd (n ((eq_iff a b).0 e)) | inr e ↦ e ]

IsIn-of_has :
    (name : String) (names : List String) → has_snapshot name names ≡ true → IsIn name names
unfolding has_snapshot
IsIn-of_has name [] h = cc
IsIn-of_has name (x ∷ names) h = elim (Bool-cases (x == name)) [
  | inl e ↦ subst (λ y. IsIn name (y ∷ names)) (sym ((eq_iff x name).0 e)) first
  | inr e ↦ further (IsIn-of_has name names (ground arith))
]

has_of_in : (name : String) (names : List String) → IsIn name names → has_snapshot name names ≡ true
unfolding has_snapshot
has_of_in name [] x = elim x [ ]
has_of_in name (x ∷ names) first = let e = (eq_iff name name).1 refl in ground arith
has_of_in name (x ∷ names) (further i) = let e = has_of_in name names i in ground arith

elsewhere_of_taken :
    (filesystem subvolume name : String) (subvolumes : List Subvolume)
    → is_taken filesystem subvolume name subvolumes ≡ true
    → IsTakenElsewhere filesystem subvolume name subvolumes
unfolding is_taken
elsewhere_of_taken filesystem subvolume name [] h = cc
elsewhere_of_taken filesystem subvolume name (s ∷ subvolumes) h =
    elim (Bool-cases (is_taken filesystem subvolume name subvolumes)) [
      | inl e ↦ later (elsewhere_of_taken filesystem subvolume name subvolumes e)
      | inr e ↦ here (IsIn-of_has name s.snapshots (ground arith)) (λ (f, n).
          let x = (eq_iff s.filesystem filesystem).1 f in
          let y = (eq_iff s.name subvolume).1 n in ground arith)
    ]

taken_of_elsewhere :
    (filesystem subvolume name : String) (subvolumes : List Subvolume)
    → IsTakenElsewhere filesystem subvolume name subvolumes
    → is_taken filesystem subvolume name subvolumes ≡ true
unfolding is_taken
taken_of_elsewhere filesystem subvolume name [] x = elim x [ ]
taken_of_elsewhere filesystem subvolume name (s ∷ subvolumes) (here i other) =
    let has = has_of_in name s.snapshots i in
    elim (Bool-cases (s.filesystem == filesystem)) [
      | inl e ↦ elim (Bool-cases (s.name == subvolume)) [
        | inl f ↦
            absurd (other ((eq_iff s.filesystem filesystem).0 e, (eq_iff s.name subvolume).0 f))
        | inr f ↦ ground arith
      ]
      | inr e ↦ ground arith
    ]
taken_of_elsewhere filesystem subvolume name (s ∷ subvolumes) (later t) =
    let x = taken_of_elsewhere filesystem subvolume name subvolumes t in ground arith

module _ (C : Client) (N : SnapshotServer C) where
  open C use {Server, get_subvolume, find_managed_subvolumes}

  map_err-ok :
      {A : Type 0} (r : Result SnapshotIdError A) (c : Code) {a : A}
      → map_err (λ _. c) r ≡ ok a
      → r ≡ ok a
  map_err-ok (ok b) c h = ground arith
  map_err-ok (err e) c h = cc

  time-positive :
      (o : Option ℤ) (at : ℤ) → csi_snapshot_creation_time C N o ≡ ok at → is_positive at ≡ true
  unfolding csi_snapshot_creation_time
  time-positive none at h = cc
  time-positive (some t) at h = elim (Bool-cases (is_positive t && N.is_valid_timestamp t)) [
    | inl e ↦
        let same : ◌≡◌ {A = Result Code ℤ} (ok t) (ok at) = rw e at h in
        let equal : t ≡ at = ground arith in rw (sym equal) (ground arith)
    | inr e ↦
        let bad : ◌≡◌ {A = Result Code ℤ} (err internal) (ok at) = rw e at h in
        absurd (ground arith)
  ]

  timed-IsOf :
      (req : SnapshotRequest) (s : Subvolume) (id : String) (created_at : Option ℤ)
      → encoded C N (metadata_of C N req s) ≡ ok id
      → Returns (timed_entry C N req s id created_at) (IsOf req)
  unfolding timed_entry encoded metadata_of
  timed-IsOf req s id created_at h =
      returns_bind
        (returns_lift (csi_snapshot_creation_time C N created_at) (time-positive created_at))
        (λ at timed. returns_pure _ (record {
          protocol = source_protocol s;
          encodes = map_err-ok (encode_snapshot_id (metadata_of C N req s)) internal h;
          source = refl;
          timed = timed;
        }))

  existing-IsOf :
      (req : SnapshotRequest) (filesystem subvolume : String) (s : Subvolume)
      → Returns (existing_snapshot C N req filesystem subvolume s) (IsOf req)
  unfolding existing_snapshot
  existing-IsOf req filesystem subvolume s =
      returns_bind (returns_lift (encoded C N (metadata_of C N req s)) (λ id e. e)) (λ id e.
        returns_after (snapshot_creation_times C N filesystem)
          (λ times. timed-IsOf req s id (time_of subvolume req.name times) e))

  described-IsOf :
      (req : SnapshotRequest) (s : Subvolume) (snapshot : SnapshotInfo)
      → Returns (described C N req s snapshot) (IsOf req)
  unfolding described
  described-IsOf req s snapshot =
      returns_bind (returns_lift (encoded C N (metadata_of C N req s)) (λ id e. e))
        (λ id e. timed-IsOf req s id snapshot.created_at e)

  new-IsOf :
      (req : SnapshotRequest) (filesystem subvolume : String) (s : Subvolume)
      → Returns (new_snapshot C N req filesystem subvolume s) (IsOf req)
  unfolding new_snapshot
  new-IsOf req filesystem subvolume s =
      returns_after (attempt (N.create_snapshot_call filesystem subvolume req.name)) (λ answer.
        returns_after (lift (created_snapshot C N answer))
          (λ snapshot. described-IsOf req s snapshot))

  create-IsOf : (req : SnapshotRequest) → Returns (create_snapshot C N req) (IsOf req)
  unfolding create_snapshot create_or_return
  create-IsOf req =
      returns_after
        (lift (refuse_if (req.name == "" || req.source_volume_id == "") invalid_argument))
        (λ u.
          returns_after
            (lift (map_err (λ _. invalid_argument) (split_subvolume_id req.source_volume_id)))
            (λ (filesystem, subvolume).
              returns_after (attempt (get_subvolume filesystem subvolume)) (λ shown.
                returns_after (lift (source_of shown)) (λ s.
                  returns_after (attempt (find_managed_subvolumes "")) (λ managed.
                    returns_after (lift (taken_answer filesystem subvolume req.name managed)) (λ v.
                      returns_if (has_snapshot req.name s.snapshots)
                        (λ e. existing-IsOf req filesystem subvolume s)
                        (λ n. new-IsOf req filesystem subvolume s)))))))

  -- If CreateSnapshot succeeds, the ID that it returns encodes the name and source volume of the
  -- request under some protocol, the entry names that source volume, and its creation time is
  -- positive.
  pub create_snapshot-IsOf :
      (req : SnapshotRequest) (st : Server) {entry : SnapshotEntry}
      → (create_snapshot C N req st).0 ≡ ok entry
      → IsOf req entry
  create_snapshot-IsOf req st = (create-IsOf req).run st

  -- When CreateSnapshot is asked for a name and a source, and the server shows the source and lists
  -- its managed subvolumes: if one of these, of another filesystem or another name than the source,
  -- has a snapshot of the requested name, it fails with AlreadyExists, and leaves the server as its
  -- reads did. If none has, it goes on to return or create the snapshot.
  pub create_snapshot_refuses :
      (req : SnapshotRequest) (st st1 st2 : Server) (filesystem subvolume : String) (s : Subvolume)
      (managed : List Subvolume)
      → req.name ≢ ""
      → req.source_volume_id ≢ ""
      → split_subvolume_id req.source_volume_id ≡ ok (filesystem, subvolume)
      → get_subvolume filesystem subvolume st ≡ (ok (some s), st1)
      → find_managed_subvolumes "" st1 ≡ (ok managed, st2)
      → (IsTakenElsewhere filesystem subvolume req.name managed
          × (create_snapshot C N req st ≡ (err already_exists, st2)))
        ⊎ ((¬ (IsTakenElsewhere filesystem subvolume req.name managed))
            × (create_snapshot C N req st ≡ create_or_return C N req filesystem subvolume s st2))
  unfolding create_snapshot taken_answer source_of
  create_snapshot_refuses req st st1 st2 filesystem subvolume s managed named sourced split shown
        listed =
      let n = not_equal req.name "" named in
      let v = not_equal req.source_volume_id "" sourced in
      elim (Bool-cases (is_taken filesystem subvolume req.name managed)) [
        | inl e ↦ inl (
          elsewhere_of_taken filesystem subvolume req.name managed e,
          rw (n, v, split, shown, listed, e) refl,
        )
        | inr e ↦ inr (
          (λ t. let x = taken_of_elsewhere filesystem subvolume req.name managed t in ground arith),
          rw (n, v, split, shown, listed, e) refl,
        )
      ]
