-- ===== src/Proxy/Capture/Layers.antt =====
-- What the layers of a body decode to.
use rust_forge.Base.{
  ℕ, ◌+◌, ◌≤◌, ◌≡◌, ◌≢◌, refl, ap, subst, ◌∙◌, ◌⊎◌, true, false, ◌&&◌, List, [], ◌∷◌, Option, none,
  some, some-injective, Any, arith, ltb, leb, length, take, length-take, take_all, Bool-cases,
  Option-cases, inl, inr,
}
use rust_forge.Text.{Text, codes, text_eq, one_of}
use rust_forge.Text.Laws.{one_of-Any, text_eq→eq}
use rust_forge.Proxy.Capture.{max_decoded_capture_bytes}
use rust_forge.Proxy.Capture.Decode.{
  Codecs, Reader, DecodedLayer, Decoded, decode_failed, cut_off, read_within, read_limited,
  decode_one, decode_layers,
}

-- A layer that is read holds at most the limit; where it is not truncated, the reader gave just
-- these bytes and did not fail.
abbrev pub LayerOf : ℕ → Reader → DecodedLayer → Type 0
LayerOf limit reader layer =
    (length layer.bytes ≤ limit)
    × (layer.truncated ≡ false → (layer.bytes ≡ reader.bytes) × (reader.fails ≡ false))

layer_of :
    (limit : ℕ) (reader : Reader)
    → (reader.fails && leb (length reader.bytes) limit) ≡ false
    → LayerOf limit reader (record {
      bytes = take limit (take (limit + 1) reader.bytes);
      truncated = ltb limit (length (take (limit + 1) reader.bytes));
    })
layer_of limit reader h = (
  omega (arith, length-take limit (take (limit + 1) reader.bytes)),
  λ whole.
      let short : length reader.bytes ≤ limit =
        ground (arith, length-take (limit + 1) reader.bytes) in
      let same : take (limit + 1) reader.bytes ≡ reader.bytes =
        take_all (limit + 1) reader.bytes (omega arith) in
      (ap (take limit) same ∙ take_all limit reader.bytes short, ground arith),
)

read_within-LayerOf :
    (limit : ℕ) (reader : Reader) (layer : DecodedLayer)
    → read_within limit reader ≡ some layer
    → LayerOf limit reader layer
unfolding read_within
read_within-LayerOf limit reader layer h =
    elim (Bool-cases (reader.fails && leb (length reader.bytes) limit)) [
      | inl fails ↦ let k : none ≡ some layer = rw fails at h in cc
      | inr reads ↦
          subst (LayerOf limit reader) (some-injective (rw reads at h))
            (layer_of limit reader reads)
    ]

read_limited-LayerOf :
    (reader : Reader) (layer : DecodedLayer)
    → read_limited reader ≡ some layer
    → LayerOf max_decoded_capture_bytes reader layer
unfolding read_limited
read_limited-LayerOf reader layer h = read_within-LayerOf max_decoded_capture_bytes reader layer h

module _ (codecs : Codecs) where
  -- The reader that a layer is read from.
  abbrev pub IsReader : List ℕ → Text → Reader → Type 0
  IsReader bytes encoding reader =
      (Any (λ e. encoding ≡ e) (codes "gzip" ∷ codes "x-gzip" ∷ []) × (reader ≡ codecs.gzip bytes))
      ⊎ ((encoding ≡ codes "br") × (reader ≡ codecs.brotli bytes))
      ⊎ ((encoding ≡ codes "deflate")
          × ((reader ≡ codecs.zlib bytes) ⊎ (reader ≡ codecs.deflate bytes)))

  abbrev pub LayerFrom : List ℕ → Text → DecodedLayer → Type 0
  LayerFrom bytes encoding layer =
      (reader : Reader) × IsReader bytes encoding reader
      × LayerOf max_decoded_capture_bytes reader layer

  decode_one-LayerFrom :
      (bytes : List ℕ) (encoding : Text) (layer : DecodedLayer)
      → decode_one codecs bytes encoding ≡ some layer
      → LayerFrom bytes encoding layer
  unfolding decode_one
  decode_one-LayerFrom bytes encoding layer h =
      elim (Bool-cases (one_of (codes "gzip" ∷ codes "x-gzip" ∷ []) encoding)) [
        | inl g ↦ (
          codecs.gzip bytes,
          inl (one_of-Any _ encoding g, refl),
          read_limited-LayerOf _ layer (rw g at h),
        )
        | inr g ↦ elim (Bool-cases (text_eq encoding (codes "br"))) [
          | inl b ↦ (
            codecs.brotli bytes,
            inr (inl (text_eq→eq encoding _ b, refl)),
            read_limited-LayerOf _ layer (rw (g, b) at h),
          )
          | inr b ↦ elim (Bool-cases (text_eq encoding (codes "deflate"))) [
            | inl d ↦ elim (Option-cases (read_limited (codecs.zlib bytes))) [
              | inl z ↦ (
                codecs.deflate bytes,
                inr (inr (text_eq→eq encoding _ d, inr refl)),
                read_limited-LayerOf _ layer (rw (g, b, d, z) at h),
              )
              | inr (l, z) ↦
                  let same : some l ≡ some layer = rw (g, b, d, z) at h in
                  (
                    codecs.zlib bytes,
                    inr (inr (text_eq→eq encoding _ d, inl refl)),
                    read_limited-LayerOf _ layer (z ∙ same),
                  )
            ]
            | inr d ↦ let k : none ≡ some layer = rw (g, b, d) at h in cc
          ]
        ]
      ]

  cut_off-bytes :
      (content_type : Option Text) (encodings : List Text) (bytes : List ℕ)
      → ((cut_off codecs content_type encodings bytes).0 ≡ bytes)
        × ((cut_off codecs content_type encodings bytes).2 ≡ true)
  cut_off-bytes content_type [] bytes = (refl, refl)
  cut_off-bytes content_type (_ ∷ _) bytes = (refl, refl)

  -- One round of the loop over the layers.
  abbrev LayerCases : Option Text → Text → List Text → List ℕ → Type 0
  LayerCases content_type e es bytes =
      let r = decode_layers codecs content_type (e ∷ es) bytes in
      (r ≡ (bytes, decode_failed, false))
      ⊎ ((layer : DecodedLayer) × LayerFrom bytes e layer
          × ((layer.truncated ≡ true) × (r ≡ cut_off codecs content_type es layer.bytes)
              ⊎ (layer.truncated ≡ false) × (r ≡ decode_layers codecs content_type es layer.bytes)))

  layer_cases :
      (content_type : Option Text) (e : Text) (es : List Text) (bytes : List ℕ)
      → LayerCases content_type e es bytes
  unfolding decode_layers
  layer_cases content_type e es bytes = elim (Option-cases (decode_one codecs bytes e)) [
    | inl none_read ↦ inl (rw (none_read, decode_layers))
    | inr (layer, read) ↦ inr (
      layer,
      decode_one-LayerFrom bytes e layer read,
      elim (Bool-cases layer.truncated) [
        | inl cut ↦ inl (cut, rw (read, decode_layers) (rw cut))
        | inr whole ↦ inr (whole, rw (read, decode_layers) (rw whole))
      ],
    )
  ]

  pub decode_layers-small :
      (content_type : Option Text) (encodings : List Text) (bytes : List ℕ)
      → length bytes ≤ max_decoded_capture_bytes
      → length (decode_layers codecs content_type encodings bytes).0 ≤ max_decoded_capture_bytes
  decode_layers-small content_type [] bytes h = unfold decode_layers in h
  decode_layers-small content_type (e ∷ es) bytes h =
      let cases : LayerCases content_type e es bytes = layer_cases content_type e es bytes in
      elim cases [
        | inl failed ↦ rw failed h
        | inr (layer, from, inl (_, r)) ↦
            rw r (rw (cut_off-bytes content_type es layer.bytes).0 from.2.0)
        | inr (layer, from, inr (_, r)) ↦
            rw r (decode_layers-small content_type es layer.bytes from.2.0)
      ]

  -- The bytes decode, layer by layer and each one whole, to the output.
  abbrev pub DecodesTo : List Text → List ℕ → List ℕ → Type 0
  DecodesTo [] bytes out = out ≡ bytes
  DecodesTo (e ∷ es) bytes out =
      (reader : Reader) × IsReader bytes e reader
      × (reader.fails ≡ false)
      × DecodesTo es reader.bytes out

  pub decode_layers-DecodesTo :
      (content_type : Option Text) (encodings : List Text) (bytes : List ℕ)
      → (decode_layers codecs content_type encodings bytes).2 ≡ false
      → (decode_layers codecs content_type encodings bytes).1 ≢ decode_failed
      → DecodesTo encodings bytes (decode_layers codecs content_type encodings bytes).0
  decode_layers-DecodesTo content_type [] bytes h k = unfold decode_layers in refl
  decode_layers-DecodesTo content_type (e ∷ es) bytes h k =
      let cases : LayerCases content_type e es bytes = layer_cases content_type e es bytes in
      elim cases [
        | inl failed ↦ absurd (k (ap (λ (d : Decoded). d.1) failed))
        | inr (layer, from, inl (_, r)) ↦
            let k' : (cut_off codecs content_type es layer.bytes).2 ≡ false = rw r at h in
            cc (k', (cut_off-bytes content_type es layer.bytes).1)
        | inr (layer, (reader, is_reader, of), inr (whole, r)) ↦
            let exact = of.1 whole in
            let h' : (decode_layers codecs content_type es layer.bytes).2 ≡ false = rw r at h in
            let k' : (decode_layers codecs content_type es layer.bytes).1 ≢ decode_failed =
              rw r at k in
            let ih = decode_layers-DecodesTo content_type es layer.bytes h' k' in
            (
              reader,
              is_reader,
              exact.1,
              rw r (
                  subst (λ b. DecodesTo es b (decode_layers codecs content_type es layer.bytes).0)
                    exact.0 ih),
            )
      ]
