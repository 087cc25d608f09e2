-- ===== src/Header/Summary/Ethernet.antt =====
-- What the text that `summary` prints tells of an Ethernet header.
use libpgen.Base.{
  ℕ, ◌/◌, ◌%◌, ◌<◌, ◌≡◌, refl, sym, ap, ◌∙◌, ◌++◌, append_assoc, Bool, some, arith, length, take,
  drop, take-append, drop-append,
}
use libpgen.Base.Run.{Run, ok}
use libpgen.Base.Text.{Text, codes, hex_digit, hex4, hex_value, hex_value-hex_digit}
use libpgen.Header.Ethernet.{EthernetHeader}
use libpgen.Header.Ethernet.Laws.{IsValid}
use libpgen.Header.Summary.{summary_ethernet, more, line}
use libpgen.MacAddress.{MacAddress, set_str}
use libpgen.MacAddress.Format.{length-format}
use libpgen.MacAddress.Laws as Mac

-- Equal texts whose beginnings are equally long.
append_cancel :
    (xs ys us vs : Text) → length xs ≡ length ys → xs ++ us ≡ ys ++ vs → (xs ≡ ys) × (us ≡ vs)
append_cancel xs ys us vs l e = (
  sym (take-append xs us (length ys) l)
      ∙ ap (take (length ys)) e
      ∙ take-append ys vs (length ys) refl,
  sym (drop-append xs us (length ys) l)
      ∙ ap (drop (length ys)) e
      ∙ drop-append ys vs (length ys) refl,
)

hex_digit-injective : (m n : ℕ) → m < 16 → n < 16 → hex_digit m ≡ hex_digit n → m ≡ n
hex_digit-injective m n h k e =
    let f : some m ≡ some n =
      sym (hex_value-hex_digit m h) ∙ ap hex_value e ∙ hex_value-hex_digit n k in
    cc

hex4-injective : (m n : ℕ) → m < 65536 → n < 65536 → hex4 m ≡ hex4 n → m ≡ n
unfolding hex4
hex4-injective m n h k e =
    let a = hex_digit-injective (m / 4096) (n / 4096) (omega arith) (omega arith) cc in
    let b = hex_digit-injective (m / 256 % 16) (n / 256 % 16) (omega arith) (omega arith) cc in
    let c = hex_digit-injective (m / 16 % 16) (n / 16 % 16) (omega arith) (omega arith) cc in
    let d = hex_digit-injective (m % 16) (n % 16) (omega arith) (omega arith) cc in omega arith

length-name : {m : MacAddress} → Mac.IsValid m → length m.name ≡ 17
length-name {m} v = ap length v.named ∙ length-format 5 m.raw v.octets

name-injective : {m n : MacAddress} → Mac.IsValid m → Mac.IsValid n → m.name ≡ n.name → m ≡ n
name-injective {m} {n} v w e =
    let f : ◌≡◌ {A = Run MacAddress (Unit {0})} (ok tt m) (ok tt n) =
      sym (Mac.set_str-name m v) ∙ ap (λ t. set_str t m) e ∙ Mac.set_str-name m w in
    cc

assoc :
    (a b c d e f g k : Text)
    → a ++ b ++ c ++ d ++ e ++ f ++ g ++ k ≡ a ++ (b ++ (c ++ (d ++ (e ++ (f ++ (g ++ k))))))
assoc a b c d e f g k = simp append_assoc

-- The pieces of the line, and what follows it.
summary_ethernet_lem :
    (h : EthernetHeader) (moreinfo : Bool)
    → (rest : Text) × (summary_ethernet h moreinfo
        ≡ codes "Ethernet ["
          ++ (h.src.name
              ++ (codes " -> " ++ (h.dst.name ++ (codes " type=0x" ++ (hex4 h.type ++ rest))))))
unfolding summary_ethernet
summary_ethernet_lem h moreinfo =
    let details = more moreinfo (
      line " - source      : " h.src.name
      ++ line " - destination : " h.dst.name
      ++ line " - type        : 0x" (hex4 h.type)) in
    (
      codes "] \n" ++ details,
      assoc (codes "Ethernet [") h.src.name (codes " -> ") h.dst.name (codes " type=0x")
          (hex4 h.type) (codes "] \n") details,
    )

-- Two valid Ethernet headers of which `summary` prints the same text are the same header.
pub summary_ethernet-injective :
    (h h' : EthernetHeader) (moreinfo : Bool)
    → IsValid h
    → IsValid h'
    → summary_ethernet h moreinfo ≡ summary_ethernet h' moreinfo
    → h ≡ h'
unfolding hex4
summary_ethernet-injective h h' moreinfo v w e =
    let (rest, p) = summary_ethernet_lem h moreinfo in
    let (rest', p') = summary_ethernet_lem h' moreinfo in
    let behind = ap (drop 10) (sym p ∙ e ∙ p') in
    let (src, e1) =
      append_cancel h.src.name h'.src.name _ _ (length-name v.src ∙ sym (length-name w.src))
        behind in
    let (dst, e2) =
      append_cancel h.dst.name h'.dst.name _ _ (length-name v.dst ∙ sym (length-name w.dst))
        (ap (drop 4) e1) in
    let (type, e3) = append_cancel (hex4 h.type) (hex4 h'.type) rest rest' refl (ap (drop 8) e2) in
    let src' = name-injective v.src w.src src in
    let dst' = name-injective v.dst w.dst dst in
    let type' = hex4-injective h.type h'.type v.type w.type type in
    λ i. record { dst = dst' i; src = src' i; type = type' i }
