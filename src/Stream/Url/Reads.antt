-- ===== src/Stream/Url/Reads.antt =====
-- rtmp_stream.c: the address that is printed for tcUrl, read again.
use rtmpcamera.Prelude.{
  ℕ, ◌≤◌, ◌≡◌, refl, sym, false, some, ◌∷◌, ◌++◌, length, codes, append_assoc, take_all, decimal,
}
use rtmpcamera.Stream.{Bytes}
use rtmpcamera.Stream.Url.{
  Port, Address, is_byte, is_space, literal, path, authority, with_port, parse, port_text,
  tc_url_of,
}
use rtmpcamera.Stream.Url.Conversions.{
  IsField, conversion_lem, integer-decimal, skip_space-clear, whole,
}

path_lem :
    (app name : Bytes)
    → IsField (is_byte 47) 127 app
    → IsField is_space 127 name
    → path (app ++ (47 ∷ name)) ≡ some (app, name)
unfolding path literal
path_lem app name a n =
    rw
      (
        conversion_lem (is_byte 47) 127 app (47 ∷ name) a.clear a.nonempty a.fits refl,
        skip_space-clear name n.clear,
        whole is_space 127 name n,
      )
      refl

-- An address whose parts the first format takes whole, with a port that is not negative.
pub record IsPlain (address : Address) : Type 0 where
  pub host : IsField (is_byte 58) 255 address.host
  pub port : address.port.negative ≡ false
  pub app : IsField (is_byte 47) 127 address.app
  pub stream_name : IsField is_space 127 address.stream_name

with_port_lem :
    (host app name : Bytes) (n : ℕ)
    → IsField (is_byte 58) 255 host
    → IsField (is_byte 47) 127 app
    → IsField is_space 127 name
    → with_port (codes "rtmp://" ++ (host ++ (58 ∷ (decimal n ++ (47 ∷ (app ++ (47 ∷ name)))))))
      ≡ some (record {
        host = host;
        port = record { negative = false; magnitude = n };
        app = app;
        stream_name = name;
      })
unfolding with_port authority literal
with_port_lem host app name n h a m =
    rw
      (
        conversion_lem (is_byte 58) 255 host (58 ∷ (decimal n ++ (47 ∷ (app ++ (47 ∷ name)))))
            h.clear h.nonempty h.fits refl,
        integer-decimal n (47 ∷ (app ++ (47 ∷ name))) refl,
        path_lem app name a m,
      )
      refl

-- The length of what `snprintf` has to print.
abbrev pub printed : Address → Bytes
printed address =
    codes "rtmp://"
    ++ (address.host ++ (codes ":" ++ (port_text address.port ++ (codes "/" ++ address.app))))

tc_url_of-printed :
    (address : Address) → length (printed address) ≤ 255 → tc_url_of address ≡ printed address
unfolding tc_url_of
tc_url_of-printed address fits = take_all 255 (printed address) fits

module _ (host app name : Bytes) (port : Port) where
  abbrev joined : Bytes
  joined =
      codes "rtmp://" ++ (host ++ (58 ∷ (decimal port.magnitude ++ (47 ∷ (app ++ (47 ∷ name))))))

  printed-joined :
      port.negative ≡ false
      → printed (record { host = host; port = port; app = app; stream_name = name }) ++ (47 ∷ name)
        ≡ joined
  unfolding port_text
  printed-joined e =
      rw
        (
          e,
          append_assoc host (58 ∷ (decimal port.magnitude ++ (47 ∷ app))) (47 ∷ name),
          append_assoc (decimal port.magnitude) (47 ∷ app) (47 ∷ name),
        )
        refl

parse-with_port :
    (url : Bytes) (address : Address) → with_port url ≡ some address → parse url ≡ some address
unfolding parse
parse-with_port url address e = rw e refl

-- A plain address is read back from what rtmp_stream_connect prints for it, with its stream's name
-- behind: a host without a colon, an app without a slash and a name without white space, each of
-- the length that its buffer takes, and a port that is not negative, which fit tcUrl together.
pub parse-tc_url_of :
    (address : Address)
    → IsPlain address
    → length (printed address) ≤ 255
    → parse (tc_url_of address ++ (codes "/" ++ address.stream_name)) ≡ some address
parse-tc_url_of address p fits =
    rw
      (
        tc_url_of-printed address fits,
        printed-joined address.host address.app address.stream_name address.port p.port,
      )
      (parse-with_port _ address (
        rw e at (
          with_port_lem address.host address.app address.stream_name address.port.magnitude p.host
            p.app p.stream_name)))
  where
    e : record { negative = false; magnitude = address.port.magnitude } ≡ address.port
    e = rw (sym p.port) refl
