-- ===== src/Protocol/Payloads.antt =====
-- The 64 byte payload: `build_payload` and `decode_payload` are inverse to one another.
use xns.Common.{
  ◌≡◌, sym, ap, ◌∙◌, subst, false, ◌++◌, map, Bytes, IsByte, ok, >>=-eq-ok, ok-injective, ◌==◌,
  check, payload_length, length, take, drop, All, All-drop, arith, length-append,
  take-append_length, drop-append_length, take-append-drop,
}
use xns.Hex
use xns.Hex.RoundTrip.{decode-encode, encode-decode, to_lower}
use xns.Edwards.{valid_owner_point}
use xns.Protocol.{
  Payload, name_size, owner_key_size, payload_size, encode_name, decode_name, all_zero,
  decode_owner_key, build_payload, decode_payload,
}
use xns.Protocol.Names.{IsName}
use xns.Protocol.Names.RoundTrip.{
  decode_name-encode_name, encode_name-decode_name, length-encode_name, IsName-decode_name,
}

-- An owner key in bytes that the protocol takes.
pub record IsOwnerKey (raw : Bytes) : Type 0 where
  pub bytes : All IsByte raw
  pub size : length raw ≡ owner_key_size
  pub nonzero : all_zero raw ≡ false
  pub valid : valid_owner_point raw ≡ ok tt

pub decode_owner_key_lem :
    (s raw : Bytes) → decode_owner_key s ≡ ok raw → (Hex.decode s ≡ ok raw) × IsOwnerKey raw
unfolding decode_owner_key
decode_owner_key_lem s raw h =
    let decoded : Hex.decode s ≡ ok raw = ground arith in
    (
      decoded,
      record {
        bytes = (encode-decode s raw decoded).1;
        size = ground arith;
        nonzero = ground arith;
        valid = ground arith;
      },
    )

pub decode_owner_key-encode :
    (raw : Bytes) → IsOwnerKey raw → decode_owner_key (Hex.encode raw) ≡ ok raw
unfolding decode_owner_key
decode_owner_key-encode raw k =
    rw (decode-encode raw k.bytes) (ground (arith, k.size, k.nonzero, k.valid))

build_payload_lem :
    (name s raw : Bytes)
    → build_payload name s ≡ ok raw
    → (field : Bytes) × (owner : Bytes) × (encode_name name ≡ ok field)
      × (decode_owner_key s ≡ ok owner)
      × (field ++ owner ≡ raw)
unfolding build_payload
build_payload_lem name s raw h =
    let (field, hf, h') = >>=-eq-ok (encode_name name) _ h in
    let (owner, ho, e) = >>=-eq-ok (decode_owner_key s) _ h' in
    (field, owner, hf, ho, ok-injective e)

decode_payload-append :
    (name field owner : Bytes)
    → length field ≡ name_size
    → decode_name field ≡ ok name
    → IsOwnerKey owner
    → decode_payload (field ++ owner)
      ≡ ok (record {
        name = name;
        owner_key = Hex.encode owner;
        payload_hex = Hex.encode (field ++ owner);
      })
unfolding decode_payload
decode_payload-append name field owner size named k =
    let total : length (field ++ owner) ≡ payload_size =
      omega (arith, length-append field owner, k.size) in
    let front : take name_size (field ++ owner) ≡ field =
      subst (λ n. take n (field ++ owner) ≡ field) size (take-append_length field owner) in
    let back : drop name_size (field ++ owner) ≡ owner =
      subst (λ n. drop n (field ++ owner) ≡ owner) size (drop-append_length field owner) in
    rw (total, front, named, back, decode_owner_key-encode owner k)

-- What `build_payload` writes is 64 bytes long, and `decode_payload` reads back the name and the
-- key, the key in lower case.
pub decode_payload-build_payload :
    (name s raw : Bytes)
    → build_payload name s ≡ ok raw
    → (length raw ≡ payload_size)
      × (decode_payload raw
          ≡ ok (record { name = name; owner_key = map to_lower s; payload_hex = Hex.encode raw }))
decode_payload-build_payload name s raw h =
    let (field, owner, hf, ho, e) = build_payload_lem name s raw h in
    let (hd, k) = decode_owner_key_lem s owner ho in
    let size = length-encode_name name field hf in
    subst
      (λ r.
        (length r ≡ payload_size)
        × (decode_payload r
            ≡ ok (record { name = name; owner_key = map to_lower s; payload_hex = Hex.encode r })))
      e
      (
        omega (arith, length-append field owner, k.size),
        subst
            (λ o.
              decode_payload (field ++ owner)
              ≡ ok (record {
                name = name;
                owner_key = o;
                payload_hex = Hex.encode (field ++ owner);
              }))
            (encode-decode s owner hd).0
            (decode_payload-append name field owner size (decode_name-encode_name name field hf) k),
      )

-- The parts of a payload that is read.
pub decode_payload_lem :
    (raw : Bytes) (p : Payload)
    → decode_payload raw ≡ ok p
    → (length raw ≡ payload_size)
      × (decode_name (take name_size raw) ≡ ok p.name)
      × ((owner : Bytes) × (decode_owner_key (Hex.encode (drop name_size raw)) ≡ ok owner)
          × (Hex.encode owner ≡ p.owner_key))
      × (p.payload_hex ≡ Hex.encode raw)
unfolding decode_payload
decode_payload_lem raw p h =
    let (_, sized, h') = >>=-eq-ok (check (length raw == payload_size) payload_length) _ h in
    let (name, hn, h'') = >>=-eq-ok (decode_name (take name_size raw)) _ h' in
    let (owner, ho, e) = >>=-eq-ok (decode_owner_key (Hex.encode (drop name_size raw))) _ h'' in
    let same_p = ok-injective e in
    (
      ground arith,
      hn ∙ ap (λ (q : Payload). ok q.name) same_p,
      (owner, ho, ap (λ (q : Payload). q.owner_key) same_p),
      sym (ap (λ (q : Payload). q.payload_hex) same_p),
    )

-- Bytes that `decode_payload` reads are those that `build_payload` writes for the name and the key:
-- a payload has one spelling, and its name is allowed.
pub build_payload-decode_payload :
    (raw : Bytes) (p : Payload)
    → All IsByte raw
    → decode_payload raw ≡ ok p
    → (build_payload p.name p.owner_key ≡ ok raw) × IsName p.name
unfolding build_payload
build_payload-decode_payload raw p bytes h =
    let (size, hn, (owner, ho, eo), _) = decode_payload_lem raw p h in
    let (hd, k) = decode_owner_key_lem _ owner ho in
    let back : owner ≡ drop name_size raw =
      ok-injective (sym hd ∙ decode-encode _ (All-drop IsByte name_size raw bytes)) in
    let hk : decode_owner_key p.owner_key ≡ ok owner =
      subst (λ s. decode_owner_key s ≡ ok owner) eo (decode_owner_key-encode owner k) in
    (
      rw (encode_name-decode_name _ p.name hn, hk)
          (rw back (ap ok (take-append-drop name_size raw))),
      IsName-decode_name _ p.name hn,
    )
