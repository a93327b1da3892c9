-- ===== src/Atls/Ea/Extensions/RoundTrip.antt =====
-- Extensions are read back as written, and are written in one way.
use session_bound_agent_iden.Common.{
  none, ◌≢◌, ℕ, ◌+◌, ◌≤◌, ◌<◌, List, [], ◌∷◌, ◌++◌, ◌≡◌, refl, sym, ap, ◌∙◌, All, length, take,
  false, Bool-cases, inl, inr, ok, >>=-eq-ok, arith, ltb,
}
use session_bound_agent_iden.GoString.{Bytes}
use session_bound_agent_iden.Atls.Ea.Wire.{parse_all, put_uint16, read_uint16, parse_items}
use session_bound_agent_iden.Atls.Ea.Wire.Numbers.{
  AreBytes, AreBytes-take, AreBytes-drop, take-append, drop-append, length-append, length-take,
  length-drop, take-drop, put-read_uint16, read-put_uint16,
}
use session_bound_agent_iden.Atls.Ea.Wire.Loop.{
  parse_all-ne-none, Shortens, Reads, Rewrites, put_items, parse_all-ne-none, parse_items-put_items,
  parse_items_rewrites,
}
use session_bound_agent_iden.Atls.Ea.Extensions.{
  Extension, payload_length, put_extension, put_extensions, marshal_extensions, get_extension,
  unmarshal_extensions,
}

-- The type of an extension is a uint16.
abbrev pub HasType : Extension → Type 0
HasType e = e.type < 65536

get_extension-Shortens : Shortens get_extension
unfolding get_extension
get_extension-Shortens (t ∷ u ∷ a ∷ b ∷ rest) x r h =
    ground (arith, length-drop (read_uint16 a b) rest)
get_extension-Shortens _ x r h = ground arith

get_extension-Reads :
    (e : Extension) → HasType e → length e.payload < 65536 → Reads get_extension put_extension e
unfolding get_extension put_extension
get_extension-Reads e t l rest = ground (
  arith,
  length-append e.payload rest,
  take-append e.payload rest,
  drop-append e.payload rest,
  read-put_uint16 e.type,
  read-put_uint16 (length e.payload),
)

-- What the loop accepts may be written again.
pub Fits : Extension → Type 0
Fits e = (e.type < 65536) × (length e.payload < 65536)

get_extension-Rewrites : Rewrites get_extension put_extension Fits
unfolding get_extension put_extension Fits
get_extension-Rewrites (t ∷ u ∷ a ∷ b ∷ rest) x r h e = ground (
  arith,
  take-drop (read_uint16 a b) rest,
  length-take (read_uint16 a b) rest,
  put-read_uint16 t u,
  put-read_uint16 a b,
  AreBytes-drop (read_uint16 a b) rest,
)
get_extension-Rewrites _ x r h e = ground arith

put_extensions_items : (es : List Extension) → put_extensions es ≡ put_items put_extension es
unfolding put_extensions put_items
put_extensions_items [] = refl
put_extensions_items (e ∷ es) = ap (λ r. put_extension e ++ r) (put_extensions_items es)

payload_length_lem :
    (es : List Extension) (n m : ℕ)
    → payload_length n es ≡ ok m
    → (m ≡ n + length (put_extensions es)) × (n ≤ 65535 → m ≤ 65535)
unfolding payload_length put_extensions put_extension
payload_length_lem [] n m h = ground arith
payload_length_lem (e ∷ es) n m h = ground (
  arith,
  payload_length_lem es (n + 4 + length e.payload) m,
  length-append e.payload (put_extensions es),
)

payload_length_bound :
    (es : List Extension) (n : ℕ)
    → All Fits es
    → n + length (put_extensions es) ≤ 65535
    → payload_length n es ≡ ok (n + length (put_extensions es))
unfolding payload_length put_extensions put_extension Fits
payload_length_bound [] n f h = ground arith
payload_length_bound (e ∷ es) n f h = ground (
  arith,
  payload_length_bound es (n + 4 + length e.payload),
  length-append e.payload (put_extensions es),
)

payload_length-Reads :
    (es : List Extension) (n m : ℕ)
    → All HasType es
    → payload_length n es ≡ ok m
    → All (Reads get_extension put_extension) es
unfolding payload_length
payload_length-Reads [] n m t h = tt
payload_length-Reads (e ∷ es) n m t h = (
  get_extension-Reads e t.0 (ground arith),
  payload_length-Reads es (n + 4 + length e.payload) m t.1 (ground arith),
)

-- Behind its length, a payload is cut off and parsed.
unmarshal_counted :
    (payload rest : Bytes) (es : List Extension)
    → length payload < 65536
    → parse_items get_extension payload ≡ ok es
    → unmarshal_extensions (put_uint16 (length payload) ++ (payload ++ rest)) ≡ ok (es, rest)
unfolding unmarshal_extensions
unmarshal_counted payload rest es small items =
    let enough : ltb (length (payload ++ rest)) (length payload) ≡ false =
      ground (arith, length-append payload rest) in
    rw
      (
        read-put_uint16 (length payload) small,
        enough,
        take-append payload rest,
        drop-append payload rest,
        items,
      )
      refl

-- Whatever follows them, extensions that could be written are read back.
pub unmarshal-marshal_extensions :
    (es : List Extension) (b rest : Bytes)
    → All HasType es
    → marshal_extensions es ≡ ok b
    → unmarshal_extensions (b ++ rest) ≡ ok (es, rest)
unfolding marshal_extensions unmarshal_extensions
unmarshal-marshal_extensions es b rest t h =
    let (n, measured, same) = >>=-eq-ok (payload_length 0 es) _ h in
    let (sum, small) = payload_length_lem es 0 n measured in
    let items : parse_items get_extension (put_extensions es) ≡ ok es =
      rw (put_extensions_items es) (
        parse_items-put_items get_extension put_extension es get_extension-Shortens
          (payload_length-Reads es 0 n t measured)) in
    let counted = unmarshal_counted (put_extensions es) rest es (omega arith) items in
    let written : b ≡ put_uint16 (length (put_extensions es)) ++ put_extensions es = ground arith in
    rw written counted

-- Extensions that were read are what their writer writes, and what follows them holds bytes.
pub marshal-unmarshal_extensions :
    (b : Bytes) (es : List Extension) (rest : Bytes)
    → AreBytes b
    → unmarshal_extensions b ≡ ok (es, rest)
    → (c : Bytes) × (marshal_extensions es ≡ ok c) × (b ≡ c ++ rest) × AreBytes rest
unfolding marshal_extensions unmarshal_extensions
marshal-unmarshal_extensions (x ∷ y ∷ b) es rest h e =
    let total = read_uint16 x y in
    elim (Bool-cases (ltb (length b) total)) [
      | inl short ↦ absurd (ground arith)
      | inr enough ↦
          let (xs, found, same) =
            >>=-eq-ok (parse_items get_extension (take total b)) _ (rw enough at e) in
          let (payload, fits) =
            parse_items_rewrites get_extension put_extension Fits (take total b) xs
              get_extension-Rewrites (AreBytes-take total b h.1.1) found in
          let listed : put_extensions xs ≡ take total b = put_extensions_items xs ∙ sym payload in
          let measure = payload_length_bound xs 0 fits in
          (
            x ∷ (y ∷ take total b),
            ground (arith, length-take total b, put-read_uint16 x y),
            ground (arith, take-drop total b),
            ground (arith, AreBytes-drop total b h.1.1),
          )
    ]
marshal-unmarshal_extensions _ es rest h e = ground arith

-- Reading extensions takes the bytes of their length, at least.
pub unmarshal_extensions-shortens :
    (b : Bytes) (es : List Extension) (rest : Bytes)
    → unmarshal_extensions b ≡ ok (es, rest)
    → length rest < length b
unfolding unmarshal_extensions
unmarshal_extensions-shortens (x ∷ y ∷ b) es rest e =
    elim (Bool-cases (ltb (length b) (read_uint16 x y))) [
      | inl short ↦ absurd (ground arith)
      | inr enough ↦
          let (xs, found, same) =
            >>=-eq-ok (parse_items get_extension (take (read_uint16 x y) b)) _ (rw enough at e) in
          ground (arith, length-drop (read_uint16 x y) b)
    ]
unmarshal_extensions-shortens _ es rest e = ground arith

-- The loop that reads extensions ends within one round for each byte, whatever the bytes are.
pub extensions_loop_ends :
    (fuel : ℕ) (b : Bytes) → length b ≤ fuel → parse_all get_extension fuel b ≢ none
extensions_loop_ends fuel b h = parse_all-ne-none get_extension fuel b get_extension-Shortens h
