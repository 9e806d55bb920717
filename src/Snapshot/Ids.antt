-- ===== src/Snapshot/Ids.antt =====
-- Snapshot IDs: encoding and decoding undo each other.
use nasty_csi.Common.{
  String, ◌<>◌, ◌≡◌, refl, sym, subst, ◌∙◌, ap, true, false, some, ◌==◌, eq_iff, arith, Bool-cases,
  inl, inr, Option-cases,
}
use nasty_csi.Common.Result.{ok}
use nasty_csi.Common.Text.{
  split_first, split_last, lacks, char-append, split_first-append, split_last-append,
  split_first_sound, split_last_sound,
}
use nasty_csi.Volume.{
  is_known_protocol, protocol_nfs, protocol_smb, protocol_iscsi, protocol_nvmeof,
}
use nasty_csi.Snapshot.{
  SnapshotMetadata, snapshot_id, encode_snapshot_id, decode_snapshot_id, decode_remainder,
  decode_parts,
}

-- What holds of the four protocols holds of a known protocol.
by_protocol :
    (P : String → Type 0) (p : String)
    → is_known_protocol p ≡ true
    → P protocol_nfs
    → P protocol_nvmeof
    → P protocol_iscsi
    → P protocol_smb
    → P p
unfolding is_known_protocol
by_protocol P p h nfs nvmeof iscsi smb = elim (Bool-cases (p == protocol_nfs)) [
  | inl e ↦ subst P (sym ((eq_iff p protocol_nfs).0 e)) nfs
  | inr n ↦ elim (Bool-cases (p == protocol_nvmeof)) [
    | inl e ↦ subst P (sym ((eq_iff p protocol_nvmeof).0 e)) nvmeof
    | inr n2 ↦ elim (Bool-cases (p == protocol_iscsi)) [
      | inl e ↦ subst P (sym ((eq_iff p protocol_iscsi).0 e)) iscsi
      | inr n3 ↦ subst P (sym ((eq_iff p protocol_smb).0 (rw (n, n2, n3) at h))) smb
    ]
  ]
]

known-lacks_colon : (p : String) → is_known_protocol p ≡ true → lacks ":" p ≡ true
known-lacks_colon p h = by_protocol (λ q. lacks ":" q ≡ true) p h refl refl refl refl

known_nonempty : (p : String) → is_known_protocol p ≡ true → (p == "") ≡ false
known_nonempty p h = by_protocol (λ q. (q == "") ≡ false) p h refl refl refl refl

decode_parts-ok :
    (m : SnapshotMetadata)
    → (m.source_volume == "") ≡ false
    → (m.snapshot_name == "") ≡ false
    → decode_parts m.protocol (m.source_volume, m.snapshot_name) ≡ ok m
unfolding decode_parts
decode_parts-ok m hv hn = rw (hv, hn) refl

split_remainder :
    (v n : String) → lacks "@" n ≡ true → split_last "@" (v <> ("@" <> n)) ≡ some (v, n)
split_remainder v n h = rw (char-append "@" n) (split_last-append "@" v n h)

split_id : (p r : String) → lacks ":" p ≡ true → split_first ":" (p <> (":" <> r)) ≡ some (p, r)
split_id p r h = rw (char-append ":" r) (split_first-append ":" p r h)

encode-ok :
    (m : SnapshotMetadata) {id : String}
    → encode_snapshot_id m ≡ ok id
    → (id ≡ snapshot_id m) × ((m.source_volume == "") ≡ false) × ((m.snapshot_name == "") ≡ false)
unfolding encode_snapshot_id
encode-ok m h = grind arith

encode_of :
    (m : SnapshotMetadata)
    → is_known_protocol m.protocol ≡ true
    → (m.source_volume == "") ≡ false
    → (m.snapshot_name == "") ≡ false
    → encode_snapshot_id m ≡ ok (snapshot_id m)
unfolding encode_snapshot_id
encode_of m known hv hn = rw (known_nonempty m.protocol known, hv, hn) refl

-- The ID that is made for a snapshot reads back as the same snapshot, if its protocol is one of the
-- four and its name has no "@": the name and the volume may hold colons, the volume also "@".
pub decode_snapshot_id-encode_snapshot_id :
    (m : SnapshotMetadata) (id : String)
    → encode_snapshot_id m ≡ ok id
    → is_known_protocol m.protocol ≡ true
    → lacks "@" m.snapshot_name ≡ true
    → decode_snapshot_id id ≡ ok m
unfolding decode_snapshot_id decode_remainder snapshot_id
decode_snapshot_id-encode_snapshot_id m id h known free =
    let (same, volume, name) = encode-ok m h in
    rw
      (
        same,
        split_id m.protocol _ (known-lacks_colon m.protocol known),
        known,
        split_remainder m.source_volume m.snapshot_name free,
      )
      (decode_parts-ok m volume name)

decode_parts_sound :
    (protocol volume name : String) (m : SnapshotMetadata)
    → decode_parts protocol (volume, name) ≡ ok m
    → (m ≡ record { snapshot_name = name; source_volume = volume; protocol = protocol })
      × ((volume == "") ≡ false)
      × ((name == "") ≡ false)
unfolding decode_parts
decode_parts_sound protocol volume name m h = grind arith

decode_remainder_sound :
    (protocol remainder : String) (m : SnapshotMetadata)
    → decode_remainder (protocol, remainder) ≡ ok m
    → (is_known_protocol protocol ≡ true)
      × ((volume : String) × (name : String) × (split_last "@" remainder ≡ some (volume, name))
          × (decode_parts protocol (volume, name) ≡ ok m))
unfolding decode_remainder
decode_remainder_sound protocol remainder m h = elim (Option-cases (split_last "@" remainder)) [
  | inl e ↦ let bad = rw e at h in grind arith
  | inr ((volume, name), e) ↦
      let found = rw e at h in
      let known : is_known_protocol protocol ≡ true = grind arith in
      (known, (volume, name, e, rw known at found))
]

decoded_sound :
    (id protocol remainder : String) (m : SnapshotMetadata)
    → split_first ":" id ≡ some (protocol, remainder)
    → decode_remainder (protocol, remainder) ≡ ok m
    → (is_known_protocol m.protocol ≡ true)
      × (lacks "@" m.snapshot_name ≡ true)
      × (encode_snapshot_id m ≡ ok id)
unfolding snapshot_id
decoded_sound id protocol remainder m e h =
    let (known, (volume, name, f, parts)) = decode_remainder_sound protocol remainder m h in
    let (same, hv, hn) = decode_parts_sound protocol volume name m parts in
    let (whole, free) = split_first_sound ":" id e in
    let (rest, lacking) = split_last_sound "@" remainder f in
    let m' : SnapshotMetadata = record {
      snapshot_name = name;
      source_volume = volume;
      protocol = protocol;
    } in
    let back : snapshot_id m' ≡ id =
      rw (whole, rest, char-append ":" (volume <> ("@" <> name)), char-append "@" name) refl in
    let made : encode_snapshot_id m' ≡ ok id = encode_of m' known hv hn ∙ ap ok back in
    rw same (known, lacking, made)

-- An ID that is read has a known protocol and a snapshot name without "@", and it is the ID that is
-- made for what was read.
pub decode_snapshot_id_sound :
    (id : String) (m : SnapshotMetadata)
    → decode_snapshot_id id ≡ ok m
    → (is_known_protocol m.protocol ≡ true)
      × (lacks "@" m.snapshot_name ≡ true)
      × (encode_snapshot_id m ≡ ok id)
unfolding decode_snapshot_id
decode_snapshot_id_sound id m h = elim (Option-cases (split_first ":" id)) [
  | inl e ↦ let bad = rw e at h in grind arith
  | inr ((protocol, remainder), e) ↦ decoded_sound id protocol remainder m e (rw e at h)
]
