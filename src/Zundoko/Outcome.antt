-- ===== src/Zundoko/Outcome.antt =====
-- When server.cc gets to answer KIYOSHI, and a datagram that it cannot print.
use libpgen.Base.{
  ℕ, inl, inr, zero, suc, ◌+◌, ◌%◌, ◌≤◌, ◌<◌, ◌≡◌, ◌≢◌, refl, sym, ap, ap₂, ◌∙◌, List, [], ◌∷◌,
  ◌++◌, append_assoc, Bool, true, false, Option, some, arith, length, take, drop, replicate, All,
  ◌==◌, ◌&&◌, if◌then◌else◌, Bool-cases, ==_iff, subst, length-append, length-replicate,
}
use libpgen.Base.Run.{ok, fault, >>=-ok, >>=-fault}
use libpgen.Base.Text.{Text}
use libpgen.Zundoko.{zun, doko, kiyoshi, type_of, message_length, c_string}
use libpgen.Base.Splice.{splice-all}
use libpgen.Zundoko.Socket.{Calls, SockaddrIn, recvfrom}
use libpgen.Zundoko.Server.{
  ZdState, Server, buffer_size, on_sock, received_text, print_message, client_hanle, serve,
}
use libpgen.Zundoko.Streak.{streak, answer, index, filled}
use libpgen.Zundoko.Game.{
  Datagrams, IsNetwork, recvfrom-ok, on_sock-ok, answers, server_at, serve-answers,
}

-- The datagrams `ds`, put before `past` as they come.
abbrev later : List (List ℕ) → Datagrams → List (List ℕ)
later past [] = past
later past ((d, from) ∷ ds) = later (d ∷ past) ds

answers-append :
    (ds es : Datagrams) (past : List (List ℕ))
    → answers past (ds ++ es) ≡ answers past ds ++ answers (later past ds) es
unfolding answers
answers-append [] es past = refl
answers-append ((d, from) ∷ ds) es past =
    ap (λ (t : Datagrams). (answer past d, from) ∷ t) (answers-append ds es (d ∷ past))

length-answers : (ds : Datagrams) (past : List (List ℕ)) → length (answers past ds) ≡ length ds
unfolding answers
length-answers [] past = refl
length-answers ((d, from) ∷ ds) past = ap suc (length-answers ds (d ∷ past))

pub streak-zun :
    (d : List ℕ) (past : List (List ℕ)) → type_of d ≡ zun → streak (d ∷ past) ≡ suc (streak past)
unfolding streak
streak-zun d past e = rw ((==_iff (type_of d) zun).1 e) refl

pub streak-other : (d : List ℕ) (past : List (List ℕ)) → type_of d ≢ zun → streak (d ∷ past) ≡ 0
unfolding streak
streak-other d past h = elim (Bool-cases (type_of d == zun)) [
  | inl e ↦ absurd (h ((==_iff (type_of d) zun).0 e))
  | inr e ↦ rw e refl
]

streak-later :
    (ds : Datagrams) (past : List (List ℕ))
    → All (λ p. type_of p.0 ≡ zun) ds
    → streak (later past ds) ≡ length ds + streak past
streak-later [] past all = omega arith
streak-later ((d, from) ∷ ds) past (e, es) =
    streak-later ds (d ∷ past) es
    ∙ ap (λ (k : ℕ). length ds + k) (streak-zun d past e)
    ∙ omega arith

-- Datagrams that lead to a state.
abbrev zuns : ℕ → List (List ℕ)
zuns n = replicate n (0 ∷ 0 ∷ [])

streak-zuns : (n : ℕ) → streak (zuns n) ≡ n
unfolding streak type_of libpgen.Base.Bytes.ntohs
streak-zuns zero = refl
streak-zuns (suc n) =
    streak-zun (0 ∷ 0 ∷ []) (replicate n (0 ∷ 0 ∷ [])) refl ∙ ap suc (streak-zuns n)

index-zuns : (s : ZdState) → index s ≡ streak (zuns (index s)) % 5
unfolding index
index-zuns s = rw (streak-zuns (index s)) (ground arith)

answer-kiyoshi :
    (past : List (List ℕ)) (d : List ℕ)
    → type_of d ≡ doko
    → streak past % 5 ≡ 4
    → answer past d ≡ take (length d) (0 ∷ kiyoshi ∷ drop 2 d)
unfolding answer
answer-kiyoshi past d e f =
    rw ((==_iff (type_of d) doko).1 e, (==_iff (streak past % 5) 4).1 f) refl

later-append :
    (ds es : Datagrams) (past : List (List ℕ)) → later past (ds ++ es) ≡ later (later past ds) es
later-append [] es past = refl
later-append ((d, from) ∷ ds) es past = later-append ds es (d ∷ past)

streak-run :
    (before zs : Datagrams) (d : List ℕ) (from : SockaddrIn) (past : List (List ℕ))
    → type_of d ≢ zun
    → All (λ p. type_of p.0 ≡ zun) zs
    → streak (later past (before ++ (d, from) ∷ zs)) ≡ length zs
streak-run before zs d from past other all =
    ap streak (later-append before ((d, from) ∷ zs) past)
    ∙ streak-later zs (d ∷ later past before) all
    ∙ ap (λ (k : ℕ). length zs + k) (streak-other d (later past before) other)
    ∙ omega arith

answers_last :
    (before zs : Datagrams) (d d' : List ℕ) (from from' : SockaddrIn) (past : List (List ℕ))
    → type_of d ≢ zun
    → All (λ p. type_of p.0 ≡ zun) zs
    → length zs % 5 ≡ 4
    → type_of d' ≡ doko
    → answers past (before ++ (d, from) ∷ zs ++ (d', from') ∷ [])
      ≡ answers past (before ++ (d, from) ∷ zs)
        ++ (take (length d') (0 ∷ kiyoshi ∷ drop 2 d'), from') ∷ []
unfolding answers
answers_last before zs d d' from from' past other all four e =
    let xs : Datagrams = before ++ (d, from) ∷ zs in
    let last : Datagrams = (d', from') ∷ [] in
    let counted = streak-run before zs d from past other all in
    let kiyoshi_e = answer-kiyoshi (later past xs) d' e (ap (λ (n : ℕ). n % 5) counted ∙ four) in
    answers-append xs last past ∙ ap (λ (m : List ℕ). answers past xs ++ (m, from') ∷ []) kiyoshi_e

module _ {Kernel : Type 0} (calls : Calls Kernel) (fd : ℕ) (net : IsNetwork calls fd) where
  -- In whatever state the server is and whatever came before: when a datagram that is no ZUN, then as
  -- many ZUN as leave 4 when divided by 5, then a DOKO wait for it, all shorter than its buffer, the
  -- server goes on to the DOKO, and answers it last of all with its type set to KIYOSHI.
  pub kiyoshi_comes :
      (before zs : Datagrams) (d d' : List ℕ) (from from' : SockaddrIn) (k : Kernel)
      (state : ZdState) (console : Text)
      → let ds = before ++ (d, from) ∷ zs ++ (d', from') ∷ [] in
        net.inbox k ≡ ds
        → All (λ p. length p.0 < buffer_size) ds
        → type_of d ≢ zun
        → All (λ p. type_of p.0 ≡ zun) zs
        → length zs % 5 ≡ 4
        → type_of d' ≡ doko
        → (k' : Kernel) × (state' : ZdState) × (text : Text) × (replies : Datagrams) × (serve calls
              (length ds)
              (server_at calls fd k state console)
            ≡ ok tt (server_at calls fd k' state' text))
          × (length replies ≡ length before + suc (length zs))
          × (net.outbox k'
              ≡ net.outbox k
                ++ (replies ++ (take (length d') (0 ∷ kiyoshi ∷ drop 2 d'), from') ∷ []))
  kiyoshi_comes before zs d d' from from' k state console waits fit other all four e =
      let xs : Datagrams = before ++ (d, from) ∷ zs in
      let past = zuns (index state) in
      let (k', state', text, served, out, none_left) =
        serve-answers calls fd net _ past k state console waits fit (index-zuns state) in
      (
        k',
        state',
        text,
        answers past xs,
        served,
        length-answers xs past ∙ length-append before ((d, from) ∷ zs),
        out
            ∙ ap (λ (t : Datagrams). net.outbox k ++ t)
                (answers_last before zs d d' from from' past other all four e),
      )

c_string-none : (bs : List ℕ) → All (λ b. b ≢ 0) bs → c_string bs ≡ Option.none
unfolding c_string
c_string-none [] all = refl
c_string-none (b ∷ bs) (h, hs) = elim (Bool-cases (b == 0)) [
  | inl e ↦ absurd (h ((==_iff b 0).0 e))
  | inr e ↦ rw (c_string-none bs hs, e) refl
]

filled-whole : (n : ℕ) (d : List ℕ) → length d ≡ n → filled n d ≡ d
filled-whole n d e = splice-all d (replicate n 0) (e ∙ sym (length-replicate {A = ℕ} n 0))

print_message-fault :
    {Kernel : Type 0} (s : Server Kernel) (buffer : List ℕ)
    → message_length buffer ≢ 0
    → c_string (drop 4 buffer) ≡ Option.none
    → print_message buffer s ≡ fault
unfolding print_message
print_message-fault s buffer h e = elim (Bool-cases (message_length buffer == 0)) [
  | inl p ↦ absurd (h ((==_iff (message_length buffer) 0).0 p))
  | inr p ↦ rw (p, e) refl
]

module _ {Kernel : Type 0} (calls : Calls Kernel) (fd : ℕ) where
  -- A datagram that fills the server's buffer, announces a message and has no zero byte behind the
  -- header makes the server print past the end of the buffer, in every state.
  pub client_hanle_overread :
      (d : List ℕ) (from : SockaddrIn) (k k' : Kernel) (state : ZdState) (console : Text)
      → calls.recvfrom (some fd) buffer_size k ≡ (some (take buffer_size d, from), k')
      → length d ≡ buffer_size
      → message_length d ≢ 0
      → All (λ b. b ≢ 0) (drop 4 d)
      → client_hanle calls (server_at calls fd k state console) ≡ fault
  unfolding client_hanle
  client_hanle_overread d from k k' state console got e announced full =
      let le : length d ≤ buffer_size = omega (arith, e) in
      let received = recvfrom-ok calls fd buffer_size d from k k' le got in
      let whole = filled-whole buffer_size d e in
      let s : Server Kernel =
        server_at calls fd k' state (console ++ received_text (filled buffer_size d)) in
      let printed =
        subst (λ b. print_message b s ≡ fault) (sym whole)
          (print_message-fault s d announced (c_string-none (drop 4 d) full)) in
      >>=-ok (on_sock (recvfrom calls buffer_size)) _ (server_at calls fd k state console)
        (on_sock-ok calls fd (recvfrom calls buffer_size) k k' state console received)
      ∙ >>=-fault (print_message (filled buffer_size d)) _ s printed
