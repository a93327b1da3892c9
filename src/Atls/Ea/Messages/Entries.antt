-- ===== src/Atls/Ea/Messages/Entries.antt =====
-- The entries of a certificate message.
use session_bound_agent_iden.Common.{
  ℕ, ◌≤◌, ◌<◌, List, [], ◌∷◌, ◌++◌, ◌≡◌, refl, sym, ap, ◌∙◌, All, length, take, drop, ◌||◌, ◌==◌,
  true, false, Bool-cases, inl, inr, ok, err, >>=-eq-ok, arith, ltb,
}
use mathlib.Core.List.{append_assoc}
use session_bound_agent_iden.GoString.{Bytes}
use session_bound_agent_iden.Atls.Ea.Wire.{put_uint24, read_uint24, parse_items}
use session_bound_agent_iden.Atls.Ea.Wire.Numbers.{
  AreBytes, AreBytes-drop, take-append, drop-append, length-append, length-take, length-drop,
  take-drop, read-put_uint24, put-read_uint24,
}
use session_bound_agent_iden.Atls.Ea.Wire.Loop.{
  Shortens, Reads, Rewrites, put_items, parse_items-put_items, parse_items_rewrites,
}
use session_bound_agent_iden.Atls.Ea.Extensions.{
  Extension, marshal_extensions, unmarshal_extensions,
}
use session_bound_agent_iden.Atls.Ea.Extensions.RoundTrip.{
  HasType, unmarshal-marshal_extensions, marshal-unmarshal_extensions,
  unmarshal_extensions-shortens,
}
use session_bound_agent_iden.Atls.Ea.Messages.{
  CertificateEntry, marshal_entry, marshal_entries, get_entry, entries_of_list,
}

-- The types of its extensions are uint16.
abbrev pub HasTypes : CertificateEntry → Type 0
HasTypes e = All HasType e.extensions

-- The bytes of an entry that can be written.
pub put_entry : CertificateEntry → Bytes
put_entry e = elim (marshal_entry e) [ ok b ↦ b | err x ↦ [] ]

-- It could be written.
pub IsWritable : CertificateEntry → Type 0
IsWritable e = marshal_entry e ≡ ok (put_entry e)

put_entry_lem : (e : CertificateEntry) (b : Bytes) → marshal_entry e ≡ ok b → put_entry e ≡ b
unfolding put_entry
put_entry_lem e b h = rw (h, put_entry) refl

read_entry :
    (der vec rest : Bytes) (exts : List Extension)
    → (length der == 0 || ltb 0xffffff (length der)) ≡ false
    → unmarshal_extensions (vec ++ rest) ≡ ok (exts, rest)
    → get_entry (put_uint24 (length der) ++ (der ++ (vec ++ rest)))
      ≡ ok (record { cert_der = der; extensions = exts }, rest)
unfolding get_entry
read_entry der vec rest exts good found =
    let enough : (length der == 0 || ltb (length (der ++ (vec ++ rest))) (length der)) ≡ false =
      ground (arith, length-append der (vec ++ rest)) in
    rw
      (
        read-put_uint24 (length der) (ground arith),
        enough,
        take-append der (vec ++ rest),
        drop-append der (vec ++ rest),
        found,
      )
      refl

get_entry-Reads : (e : CertificateEntry) → HasTypes e → IsWritable e → Reads get_entry put_entry e
unfolding marshal_entry IsWritable
get_entry-Reads e t h rest =
    elim (Bool-cases (length e.cert_der == 0 || ltb 0xffffff (length e.cert_der))) [
      | inl bad ↦ absurd (ground arith)
      | inr good ↦
          let (vec, found, written) =
            >>=-eq-ok (marshal_extensions e.extensions) _ (rw good at h) in
          let exts = unmarshal-marshal_extensions e.extensions vec rest t found in
          let whole : put_entry e ++ rest
              ≡ put_uint24 (length e.cert_der) ++ (e.cert_der ++ (vec ++ rest)) =
            ground (arith, append_assoc e.cert_der vec rest) in
          rw whole (read_entry e.cert_der vec rest e.extensions good exts)
    ]

get_entry_parts :
    (a b c : ℕ) (rest : Bytes) (e : CertificateEntry) (leftover : Bytes)
    → get_entry (a ∷ b ∷ c ∷ rest) ≡ ok (e, leftover)
    → (0 < read_uint24 a b c)
      × (read_uint24 a b c ≤ length rest)
      × (e.cert_der ≡ take (read_uint24 a b c) rest)
      × (unmarshal_extensions (drop (read_uint24 a b c) rest) ≡ ok (e.extensions, leftover))
unfolding get_entry
get_entry_parts a b c rest e leftover h =
    let n = read_uint24 a b c in
    elim (Bool-cases (n == 0 || ltb (length rest) n)) [
      | inl bad ↦ absurd (ground arith)
      | inr good ↦
          let ((exts, after), found, same) =
            >>=-eq-ok (unmarshal_extensions (drop n rest)) _ (rw good at h) in
          (ground arith, ground arith, ground arith, found ∙ ground arith)
    ]

get_entry-Shortens : Shortens get_entry
get_entry-Shortens (a ∷ b ∷ c ∷ rest) e leftover h =
    let n = read_uint24 a b c in
    let (some_given, enough, der, exts) = get_entry_parts a b c rest e leftover h in
    omega (
      arith,
      unmarshal_extensions-shortens (drop n rest) e.extensions leftover exts,
      length-drop n rest,
    )
get_entry-Shortens _ e leftover h = unfold get_entry in ground arith

get_entry-Rewrites : Rewrites get_entry put_entry IsWritable
unfolding marshal_entry IsWritable
get_entry-Rewrites (a ∷ b ∷ c ∷ rest) e leftover h found =
    let n = read_uint24 a b c in
    let (some_given, enough, der, exts) = get_entry_parts a b c rest e leftover found in
    let (vec, written, same, after) =
      marshal-unmarshal_extensions (drop n rest) e.extensions leftover
        (AreBytes-drop n rest h.1.1.1) exts in
    let measure : length e.cert_der ≡ n = ap length der ∙ length-take n rest enough in
    let good : (length e.cert_der == 0 || ltb 0xffffff (length e.cert_der)) ≡ false =
      ground arith in
    let entry : marshal_entry e ≡ ok (put_uint24 (length e.cert_der) ++ (e.cert_der ++ vec)) =
      rw (good, written) refl in
    let put = put_entry_lem e _ entry in
    let parts : rest ≡ e.cert_der ++ (vec ++ leftover) =
      sym (take-drop n rest) ∙ ground (arith, same, der) in
    (
      ground (arith, put, parts, put-read_uint24 a b c, append_assoc e.cert_der vec leftover),
      after,
      rw put entry,
    )
get_entry-Rewrites _ e leftover h found = absurd (unfold get_entry in ground arith)

-- Entries that can be written are the list of what each is written as.
pub marshal_entries_items :
    (es : List CertificateEntry) (b : Bytes)
    → All HasTypes es
    → marshal_entries es ≡ ok b
    → (b ≡ put_items put_entry es) × All (Reads get_entry put_entry) es
unfolding marshal_entries put_items
marshal_entries_items [] b t h = (ground arith, tt)
marshal_entries_items (e ∷ es) b t h =
    let (one, first, h1) = >>=-eq-ok (marshal_entry e) _ h in
    let (others, tail, same) = >>=-eq-ok (marshal_entries es) _ h1 in
    let put = put_entry_lem e one first in
    let (listed, read) = marshal_entries_items es others t.1 tail in
    (ground arith, (get_entry-Reads e t.0 (unfold IsWritable in rw put first), read))

pub marshal_entries_writable :
    (es : List CertificateEntry)
    → All IsWritable es
    → marshal_entries es ≡ ok (put_items put_entry es)
unfolding marshal_entries put_items IsWritable
marshal_entries_writable [] w = refl
marshal_entries_writable (e ∷ es) w = rw (w.0, marshal_entries_writable es w.1) refl

-- The list of entries is read back as written.
pub entries_of_put :
    (es : List CertificateEntry) (b : Bytes)
    → All HasTypes es
    → length b < 16777216
    → marshal_entries es ≡ ok b
    → entries_of_list (put_uint24 (length b) ++ b) ≡ ok es
unfolding entries_of_list
entries_of_put es b t small h =
    let (listed, read) = marshal_entries_items es b t h in
    let counted : (length b == length b) ≡ true = ground arith in
    let items : parse_items get_entry b ≡ ok es =
      rw listed (parse_items-put_items get_entry put_entry es get_entry-Shortens read) in
    rw (read-put_uint24 (length b) small, counted) items

-- Entries that were read are what their writer writes.
pub entries_of_list_inverse :
    (b : Bytes) (es : List CertificateEntry)
    → AreBytes b
    → entries_of_list b ≡ ok es
    → (c : Bytes) × (marshal_entries es ≡ ok c) × (b ≡ put_uint24 (length c) ++ c)
unfolding entries_of_list
entries_of_list_inverse (x ∷ y ∷ z ∷ list) es h e =
    elim (Bool-cases (length list == read_uint24 x y z)) [
      | inr other ↦ absurd (ground arith)
      | inl counted ↦
          let (listed, writable) =
            parse_items_rewrites get_entry put_entry IsWritable list es get_entry-Rewrites h.1.1.1
              (rw counted at e) in
          (
            list,
            marshal_entries_writable es writable ∙ ap ok (sym listed),
            ground (arith, put-read_uint24 x y z),
          )
    ]
entries_of_list_inverse _ es h e = absurd (ground arith)
