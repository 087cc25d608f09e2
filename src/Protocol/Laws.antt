-- ===== src/Protocol/Laws.antt =====
-- What a packet class's `clear` has to do for its objects to be valid, and the constructors of a class
-- that does it.
use libpgen.Base.{ℕ, ◌≤◌, ◌<◌, ◌≡◌, refl, ap, subst, sym, ◌∙◌, List, [], length, arith, All}
use libpgen.Base.Bytes.{IsBytes, size_mod}
use libpgen.Base.Run.{ok}
use libpgen.DataContainer
use libpgen.DataContainer.Laws as ContainerLaws
use libpgen.Header.Laws as HeaderLaws
use libpgen.Packet.{Packet, PacketType, contents, length_of, header_length, compile, raw}
use libpgen.Packet.Analyze.{raw-compile-analyze}
use libpgen.Packet.Laws.{IsValid, raw_lem}
use libpgen.Packet.Reading.{max_total, AllReadable}
use libpgen.Protocol.{PacketClass, construct, construct_from, started, analyzed}

-- Whatever the members hold, `clear` returns and leaves `cleared`, whose headers are valid and fit the
-- space in front of the contents, as long as they can get.
pub record IsClass {M : Type 0} (c : PacketClass M) : Type 0 where
  pub cleared : M → M
  pub clears : (m : M) → c.clear m ≡ ok tt (cleared m)
  pub valid : (m : M) → All HeaderLaws.IsValid (c.init_headers (cleared m))
  pub small : (m : M) → max_total (c.init_headers (cleared m)) ≤ 128

module _ {M : Type 0} (c : PacketClass M) (law : IsClass c) (type : PacketType) (m : M) where
  -- The packet that the constructor without arguments makes.
  abbrev fresh : Packet
  fresh = record {
    type = type;
    raw = DataContainer.construct 128;
    headers = c.init_headers (law.cleared m);
  }

  -- The constructor without arguments returns, whatever stood in the members, and makes a valid packet
  -- with the cleared headers and no contents.
  pub construct_lem :
      (p : Packet) × (construct c type m ≡ ok tt p)
      × IsValid p
      × (p.headers ≡ c.init_headers (law.cleared m))
      × (contents p ≡ ok [] p)
      × (length_of p ≡ ok (header_length p) p)
  unfolding construct DataContainer.construct
  construct_lem =
      let v : IsValid fresh = record {
        container = ContainerLaws.construct-IsValid 128;
        pivot = refl;
        headers = law.valid m;
        small = law.small m;
      } in
      let (_, contents', length') = raw_lem fresh v in
      (
        fresh,
        ap (started c type) (law.clears m),
        v,
        refl,
        contents',
        length' ∙ ap (λ (k : ℕ). ok k fresh) {y = header_length fresh} (omega arith),
      )

  -- The constructor from bytes that hold one readable header after the other, an IPv6 header without
  -- flow label and traffic class, returns, and `compile` and `raw` of its packet give those bytes back.
  -- It holds for every class whose `clear` does what `IsClass` asks for.
  pub raw-compile-construct_from :
      (buf : List ℕ)
      → IsBytes buf
      → length buf < size_mod
      → AllReadable (c.init_headers (law.cleared m)) (length buf) buf
      → (p p' : Packet) × (construct_from c type m buf (length buf) ≡ ok tt p)
        × (compile p ≡ ok tt p')
        × (raw p' ≡ ok buf p')
        × (length_of p' ≡ ok (length buf) p')
  unfolding construct_from
  raw-compile-construct_from buf bs s r =
      let (q, e, v, same, _, _) = construct_lem in
      let (p, p', e', compiled, back, long) =
        raw-compile-analyze buf q bs s v
          (subst (λ hs. AllReadable hs (length buf) buf) (sym same) r) in
      (p, p', ap (analyzed c buf (length buf)) e ∙ e', compiled, back, long)
