-- ===== src/Stream/Url.antt =====
-- rtmp_stream.c: how rtmp_stream_connect reads an address, and the tcUrl that it prints.
--
-- The formats of `sscanf` are followed conversion by conversion: `%n[^c]` takes at least one and
-- at most n bytes up to a byte c, `%d` and `%s` skip white space first, and a byte of the format
-- must be there. A port that no `int` holds has no defined value in C; here it keeps its own.
pub mod Conversions
pub mod Reads
use rtmpcamera.Prelude.{
  ℕ, zero, suc, ◌+◌, ◌-◌, ◌*◌, ◌/◌, ◌%◌, Bool, true, false, not, ◌&&◌, ◌||◌, Option, none, some,
  List, [], ◌∷◌, ◌++◌, if◌then◌else◌, ◌==◌, ltb, leb, length, take, codes, ◌>>=◌, decimal, value,
}
use rtmpcamera.Stream.{Bytes}

abbrev pub default_port : ℕ
default_port = 1935

-- An `int`.
pub record Port : Type 0 where
  pub negative : Bool
  pub magnitude : ℕ

pub record Address : Type 0 where
  pub host : Bytes
  pub port : Port
  pub app : Bytes
  pub stream_name : Bytes

abbrev pub is_byte : ℕ → ℕ → Bool
is_byte c b = b == c

abbrev pub is_space : ℕ → Bool
is_space b = b == 32 || (leb 9 b && leb b 13)

abbrev pub is_digit : ℕ → Bool
is_digit b = leb 48 b && leb b 57

abbrev pub no_digit : ℕ → Bool
no_digit b = not (is_digit b)

-- The longest prefix of at most so many bytes before a byte that stops it, and the rest.
unfoldable pub span : (stop : ℕ → Bool) → (width : ℕ) → Bytes → Bytes × Bytes
span stop zero bs = ([], bs)
span stop (suc width) [] = ([], [])
span stop (suc width) (b ∷ bs) =
    let (taken, rest) = span stop width bs in if stop b then ([], b ∷ bs) else (b ∷ taken, rest)

abbrev pub nonempty : Bytes × Bytes → Option (Bytes × Bytes)
nonempty ([], rest) = none
nonempty (b ∷ bs, rest) = some (b ∷ bs, rest)

-- `%width[^c]` and, behind white space, `%widths`
abbrev pub conversion : (stop : ℕ → Bool) → (width : ℕ) → Bytes → Option (Bytes × Bytes)
conversion stop width bs = nonempty (span stop width bs)

-- The bytes of the format itself.
unfoldable pub literal : (text : Bytes) → Bytes → Option Bytes
literal [] bs = some bs
literal (c ∷ text) [] = none
literal (c ∷ text) (b ∷ bs) = let rest = literal text bs in if b == c then rest else none

unfoldable pub skip_space : Bytes → Bytes
skip_space [] = []
skip_space (b ∷ bs) = let rest = skip_space bs in if is_space b then rest else b ∷ bs

abbrev pub digits : (negative : Bool) → Bytes → Option (Port × Bytes)
digits negative bs = do
  (ds, rest) ← conversion no_digit (length bs) bs
  some (record { negative = negative; magnitude = value 0 ds }, rest)

-- `%d`
unfoldable pub integer : Bytes → Option (Port × Bytes)
integer bs = signed (skip_space bs)
  where
    signed : Bytes → Option (Port × Bytes)
    signed [] = none
    signed (b ∷ rest) =
        if b == 45
        then digits true rest
        else if b == 43
        then digits false rest
        else digits false (b ∷ rest)

-- `%127[^/]/%127s`
unfoldable pub path : Bytes → Option (Bytes × Bytes)
unfolding literal
path bs = do
  (app, rest) ← conversion (is_byte 47) 127 bs
  rest ← literal (codes "/") rest
  (stream_name, _) ← conversion is_space 127 (skip_space rest)
  some (app, stream_name)

-- The first format up to the port.
unfoldable pub authority : (url : Bytes) → Option (Bytes × Port × Bytes)
unfolding literal integer
authority url = do
  rest ← literal (codes "rtmp://") url
  (host, rest) ← conversion (is_byte 58) 255 rest
  rest ← literal (codes ":") rest
  (port, rest) ← integer rest
  some (host, port, rest)

unfoldable pub with_port : (url : Bytes) → Option Address
unfolding authority path
with_port url = do
  (host, port, rest) ← authority url
  rest ← literal (codes "/") rest
  (app, stream_name) ← path rest
  some (record { host = host; port = port; app = app; stream_name = stream_name })

-- The second format, with the port that the variable holds by then.
unfoldable pub without_port : Port → (url : Bytes) → Option Address
unfolding path
without_port port url = do
  rest ← literal (codes "rtmp://") url
  (host, rest) ← conversion (is_byte 47) 255 rest
  rest ← literal (codes "/") rest
  (app, stream_name) ← path rest
  some (record { host = host; port = port; app = app; stream_name = stream_name })

-- `port` after the first format, whether or not that format matched to its end.
abbrev pub port_left : Option (Bytes × Port × Bytes) → Port
port_left none = record { negative = false; magnitude = default_port }
port_left (some (_, port, _)) = port

abbrev or_else : Option Address → Option Address → Option Address
or_else none second = second
or_else (some address) second = some address

-- The parser of rtmp_stream_connect.
unfoldable pub parse : (url : Bytes) → Option Address
unfolding with_port without_port
parse url = or_else (with_port url) (without_port (port_left (authority url)) url)

unfoldable pub port_text : Port → Bytes
unfolding decimal
port_text port =
    let text = decimal port.magnitude in
    if port.negative && not (port.magnitude == 0) then 45 ∷ text else text

-- What `snprintf` prints into the 256 bytes of tcUrl.
unfoldable pub tc_url_of : Address → Bytes
unfolding port_text
tc_url_of address = take 255 (
    codes "rtmp://"
    ++ (address.host ++ (codes ":" ++ (port_text address.port ++ (codes "/" ++ address.app)))))
