-- ===== src/Runtime/Address.antt =====
-- internal/runtime: the address that the embedded engine listens on (config.go), those of its peers and
-- the errors that a connection may end with (embedded.go). `net.SplitHostPort` is a parameter.
use Prim.Native.Char.{code}
use v2sudoku.Prelude.{
  ◌≡◌, refl, String, Bool, true, false, ◌||◌, Option, none, some, nat_beq, if◌then◌else◌,
}
use v2sudoku.Text.{is_empty, ◌+s+◌, to_lower}
use v2sudoku.Text.Decimal.{itoa}
use v2sudoku.Panel.{NodeInfo}
use v2sudoku.Panel.Users.{contains}

unfoldable pub has_colon : String → Bool
has_colon String.[] = false
has_colon (String.◌∷◌ c s) = nat_beq (code c) 58 || has_colon s

-- `net.JoinHostPort`
unfoldable pub join_host_port : String → String → String
unfolding has_colon
join_host_port host port =
    if has_colon host then "[" +s+ host +s+ "]:" +s+ port else host +s+ ":" +s+ port

unfoldable pub listen_address : NodeInfo → String
unfolding join_host_port
listen_address node =
    join_host_port (if is_empty node.listen_ip then "0.0.0.0" else node.listen_ip)
      (itoa node.server_port)

-- `none` is a nil address.
abbrev pub addr_string : Option String → String
addr_string none = ""
addr_string (some text) = text

-- The host of an address, or all of it if it cannot be split.
abbrev pub client_ip : (String → Option String) → String → String
client_ip split_host remote = elim (split_host remote) [ none ↦ remote | some host ↦ host ]

-- An error, as `errors.Is` tells it apart, and its text.
pub record ConnError : Type 0 where
  pub is_eof : Bool
  pub is_net_closed : Bool
  pub is_os_closed : Bool
  pub text : String

unfoldable pub is_expected_close : Option ConnError → Bool
is_expected_close none = true
is_expected_close (some e) =
    if e.is_eof || e.is_net_closed || e.is_os_closed
    then true
    else let msg = to_lower e.text in
      contains msg "use of closed network connection"
      || contains msg "connection reset by peer"
      || contains msg "broken pipe"

join_tests : join_host_port "::" "443" ≡ "[::]:443"
unfolding join_host_port
join_tests = refl

close_tests :
    is_expected_close (
      some (record {
        is_eof = false;
        is_net_closed = false;
        is_os_closed = false;
        text = "write: Broken pipe";
      }))
    ≡ true
unfolding is_expected_close to_lower contains
close_tests = refl
