-- ===== src/Socks/Session.antt =====
-- socks.rs: the whole exchange with a client up to the hand-over of its request.
use dynet.Base.{
  ℕ, ◌≡◌, refl, inl, inr, Bool, true, [], ◌∷◌, ◌++◌, some, none, length, any, ap, ◌∙◌, Bool-cases,
  ◌==◌, if◌then◌else◌,
}
use mathlib.Core.List.{append_assoc}
use dynet.Base.Net.{Bytes, v4}
use dynet.Base.Outcome.{Outcome, ok, err}
use dynet.Base.Text.{Text, text}
use dynet.Socks.{
  SocksError, socks_error, with_source, SocksDestination, SocksRequest, address_bytes,
}
use dynet.Socks.Wire.{IsDestination, destination_bytes}
use dynet.Socks.Stream.{
  TcpStream, write_all, select_method, negotiate_no_auth, write_reply, dispatch, handle_client,
  SocksHandler, handle_connect, handle_udp_associate, handshake, request,
}
use dynet.Socks.Request.{read_exact-append, read_request-bytes}

-- The methods that a client offers: the version, how many there are, and each of them.
abbrev pub greeting_bytes : Bytes → Bytes
greeting_bytes methods = 5 ∷ length methods ∷ methods

abbrev pub request_bytes : ℕ → SocksDestination → Bytes
request_bytes command d = 5 ∷ command ∷ 0 ∷ destination_bytes d

abbrev pub offers_no_auth : Bytes → Bool
offers_no_auth methods = any (λ m. m == 0) methods

abbrev selection : Text
selection = text "failed writing method selection"

write_all-none :
    (bytes : Bytes) (stage message : Text) (s : TcpStream)
    → s.write_error ≡ none
    → write_all bytes stage message s ≡ (ok tt, record s { output = s.output ++ bytes })
unfolding write_all
write_all-none bytes stage message s h =
    ap
      (λ w. elim w [
        | none ↦ (ok tt, record s { output = s.output ++ bytes })
        | some error ↦ (err (with_source stage message error), s)
      ])
      h

module _ (s : TcpStream) (rest methods : Bytes) (writable : s.write_error ≡ none)
    (asked : s.input ≡ greeting_bytes methods ++ rest) where
  abbrev greeted : ℕ → TcpStream
  greeted method = record s { input = rest; output = s.output ++ 5 ∷ method ∷ [] }

  negotiate_no_auth-greeting : negotiate_no_auth s ≡ (
      if offers_no_auth methods then (ok tt, greeted 0) else (
        err (socks_error handshake (text "SOCKS5 no-auth method is not offered")),
        greeted 0xff,
      ))
  unfolding negotiate_no_auth select_method
  negotiate_no_auth-greeting =
      let counted : TcpStream = record s { input = methods ++ rest } in
      elim (Bool-cases (offers_no_auth methods)) [
        | inl t ↦
            rw
              (
                read_exact-append 2 handshake (text "failed reading greeting") s
                    (5 ∷ length methods ∷ []) (methods ++ rest) asked refl,
                read_exact-append (length methods) handshake (text "failed reading methods") counted
                    methods rest refl refl,
                t,
                write_all-none (5 ∷ 0 ∷ []) handshake selection (record s { input = rest })
                    writable,
              )
              refl
        | inr f ↦
            rw
              (
                read_exact-append 2 handshake (text "failed reading greeting") s
                    (5 ∷ length methods ∷ []) (methods ++ rest) asked refl,
                read_exact-append (length methods) handshake (text "failed reading methods") counted
                    methods rest refl refl,
                f,
                write_all-none (5 ∷ 0xff ∷ []) handshake selection (record s { input = rest })
                    writable,
              )
              refl
      ]

-- The reply that refuses a command, with no address.
abbrev pub refusal_bytes : Bytes
refusal_bytes = 5 ∷ 7 ∷ 0 ∷ 1 ∷ 0 ∷ 0 ∷ 0 ∷ 0 ∷ 0 ∷ 0 ∷ []

-- What the server makes of a client that sends its methods and a request: the outcome, and what it
-- answers.
abbrev pub answer : Bytes → ℕ → SocksDestination → Outcome SocksError SocksHandler × Bytes
answer methods command d =
    if offers_no_auth methods
    then (if command == 1
        then (ok (handle_connect (record { command = command; destination = d })), 5 ∷ 0 ∷ [])
        else if command == 3
        then (ok handle_udp_associate, 5 ∷ 0 ∷ [])
        else if command == 2
        then (
          err (socks_error request (text "SOCKS5 BIND is not supported")),
          5 ∷ 0 ∷ refusal_bytes,
        )
        else (
          err (socks_error request (text "SOCKS5 command is not supported")),
          5 ∷ 0 ∷ refusal_bytes,
        ))
    else (err (socks_error handshake (text "SOCKS5 no-auth method is not offered")), 5 ∷ 0xff ∷ [])

-- What is left unread: the request too, if the methods are refused.
abbrev pub unread : Bytes → Bytes → Bytes → Bytes
unread methods asked rest = if offers_no_auth methods then rest else asked ++ rest

module _ (s : TcpStream) (rest : Bytes) (command : ℕ) (d : SocksDestination)
    (writable : s.write_error ≡ none) where
  abbrev sent : Bytes → TcpStream
  sent bytes = record s { input = rest; output = s.output ++ bytes }

  abbrev asked_for : SocksRequest
  asked_for = record { command = command; destination = d }

  dispatch-refused :
      write_reply 7 (record { ip = v4 (0 ∷ 0 ∷ 0 ∷ 0 ∷ []); port = 0 }) (sent (5 ∷ 0 ∷ []))
      ≡ (ok tt, sent (5 ∷ 0 ∷ refusal_bytes))
  unfolding write_reply address_bytes
  dispatch-refused =
      write_all-none refusal_bytes (text "socks-reply") (text "failed writing SOCKS5 reply")
        (sent (5 ∷ 0 ∷ [])) writable
      ∙ ap (λ o. (ok tt, record s { input = rest; output = o }))
          (append_assoc s.output (5 ∷ 0 ∷ []) refusal_bytes)

  dispatch-answer :
      (methods : Bytes)
      → offers_no_auth methods ≡ true
      → dispatch asked_for (sent (5 ∷ 0 ∷ []))
        ≡ ((answer methods command d).0, sent (answer methods command d).1)
  unfolding dispatch
  dispatch-answer methods t = elim (Bool-cases (command == 1)) [
    | inl c ↦ rw (t, c) refl
    | inr not_connect ↦ elim (Bool-cases (command == 3)) [
      | inl c ↦ rw (t, not_connect, c) refl
      | inr not_udp ↦ elim (Bool-cases (command == 2)) [
        | inl c ↦ rw (t, not_connect, not_udp, c, dispatch-refused) refl
        | inr not_bind ↦ rw (t, not_connect, not_udp, not_bind, dispatch-refused) refl
      ]
    ]
  ]

-- A client offers its methods and asks for a destination, and may send on at once. It is answered by
-- the table: without the no-auth method the request is left unread and the method 0xff chosen;
-- else a connect and a UDP association go on to their handlers, with what follows the request still
-- to be read, and a bind and every other command are refused with reply 7.
pub handle_client-answer :
    (s : TcpStream) (rest methods : Bytes) (command : ℕ) (d : SocksDestination)
    → s.write_error ≡ none
    → IsDestination d
    → s.input ≡ greeting_bytes methods ++ (request_bytes command d ++ rest)
    → handle_client s ≡ (
      (answer methods command d).0,
      record s {
        input = unread methods (request_bytes command d) rest;
        output = s.output ++ (answer methods command d).1;
      },
    )
unfolding handle_client
handle_client-answer s rest methods command d writable valid asked =
    let offered : TcpStream = record s {
      input = request_bytes command d ++ rest;
      output = s.output ++ 5 ∷ 0 ∷ [];
    } in
    let greeted =
      negotiate_no_auth-greeting s (request_bytes command d ++ rest) methods writable asked in
    elim (Bool-cases (offers_no_auth methods)) [
      | inl t ↦
          rw
            (
              greeted,
              t,
              read_request-bytes offered rest command d valid refl,
              dispatch-answer s rest command d writable methods t,
              t,
            )
            refl
      | inr f ↦ rw (greeted, f) refl
    ]
