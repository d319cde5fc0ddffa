-- ===== src/Server/Construction/Tls.antt =====
-- The context that the TLS handler returns, and when the log stays empty.
use foxglove_bridge_release.Base.{
  refl, ◌≡◌, ◌↔◌, String, true, [], ◌∷◌, arith, Bool-cases, inl, inr,
}
use foxglove_bridge_release.Base.Exec.{Result, ok, throws, Result-cases, catching, catching-ok}
use foxglove_bridge_release.Server.Construction.{
  default_workarounds, no_tlsv1, no_sslv2, no_sslv3, Ssl, ciphers, set_ciphers, prepare_context,
  tls_context, log_exception, tls_init, TlsInit,
}

module _ {C : Type 0} (ssl : Ssl C) (certfile keyfile : String) (new : C) where
  -- the context after each step
  abbrev pub with_options : C
  with_options = (ssl.set_options (default_workarounds ∷ no_tlsv1 ∷ no_sslv2 ∷ no_sslv3 ∷ []) new).1

  abbrev pub with_certificate : C
  with_certificate = (ssl.use_certificate_chain_file certfile with_options).1

  abbrev pub with_key : C
  with_key = (ssl.use_private_key_file keyfile with_certificate).1

  -- No step throws, and the ciphers are accepted.
  abbrev pub GoesWell : Type 0
  GoesWell =
      ((ssl.set_options (default_workarounds ∷ no_tlsv1 ∷ no_sslv2 ∷ no_sslv3 ∷ []) new).0 ≡ ok tt)
      × ((ssl.use_certificate_chain_file certfile with_options).0 ≡ ok tt)
      × ((ssl.use_private_key_file keyfile with_certificate).0 ≡ ok tt)
      × ((ssl.set_cipher_list ciphers with_key).0 ≡ true)

  abbrev fresh : TlsInit C
  fresh = record { context = new; log = [] }

  abbrev done : TlsInit C
  done = (tls_context ssl certfile keyfile fresh).1

  -- what the handler leaves when it goes well
  goes_well :
      GoesWell → done ≡ record { context = (ssl.set_cipher_list ciphers with_key).1; log = [] }
  unfolding tls_context prepare_context set_ciphers
  goes_well (o, c, k, s) = ground (arith, o, c, k, s)

  returned :
      (p : Result (Unit {0}) × TlsInit C)
      → p.0 ≡ ok tt
      → let q = elim p.0 as (λ _. Result C × TlsInit C) [
        | ok a ↦ (ok (p.1.context), p.1)
        | throws x ↦ (throws x, p.1)
      ] in
        q.0 ≡ ok (q.1.context)
  returned (ok tt, t) e = refl
  returned (throws x, t) e = cc

  always_returns : (tls_context ssl certfile keyfile fresh).0 ≡ ok (done.context)
  unfolding tls_context
  always_returns =
      let m = prepare_context ssl certfile keyfile in
      let h = log_exception ssl certfile keyfile in
      returned (catching m h fresh) (catching-ok h (λ x t. refl) m fresh)

  logs_nothing : done.log ≡ [] → GoesWell
  unfolding tls_context prepare_context set_ciphers
  logs_nothing e =
      elim (Result-cases
        (ssl.set_options (default_workarounds ∷ no_tlsv1 ∷ no_sslv2 ∷ no_sslv3 ∷ []) new).0) [
          | inr (x, o) ↦ absurd (ground (arith, o, e))
          | inl (_, o) ↦
              elim (Result-cases (ssl.use_certificate_chain_file certfile with_options).0) [
                | inr (x, c) ↦ absurd (ground (arith, o, c, e))
                | inl (_, c) ↦
                    elim (Result-cases (ssl.use_private_key_file keyfile with_certificate).0) [
                      | inr (x, k) ↦ absurd (ground (arith, o, c, k, e))
                      | inl (_, k) ↦ elim (Bool-cases (ssl.set_cipher_list ciphers with_key).0) [
                        | inr s ↦ absurd (ground (arith, o, c, k, s, e))
                        | inl s ↦ (o, c, k, s)
                      ]
                    ]
              ]
        ]

  -- what the handler answers, where the context can be constructed
  runs :
      ssl.sslv23 ≡ ok new
      → tls_init ssl certfile keyfile ≡ ((tls_context ssl certfile keyfile fresh).0, done.log)
  unfolding tls_init
  runs e = rw e refl

  -- When the context can be constructed, the TLS handler returns one, whatever the calls on it throw.
  -- It writes nothing to the log exactly when the options, the certificate, the key and the ciphers
  -- are all accepted, and the context that it returns then has them all.
  pub tls_init_lem :
      ssl.sslv23 ≡ ok new
      → (context : C) × ((tls_init ssl certfile keyfile).0 ≡ ok context)
        × (((tls_init ssl certfile keyfile).1 ≡ [])
            ↔ (GoesWell × (context ≡ (ssl.set_cipher_list ciphers with_key).1)))
  tls_init_lem e = rw (runs e) (
    done.context,
    always_returns,
    (
      λ nothing. let g = logs_nothing nothing in (g, ground (arith, goes_well g)),
      λ (g, there). ground (arith, goes_well g),
    ),
  )
