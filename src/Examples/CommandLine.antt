-- ===== src/Examples/CommandLine.antt =====
-- Texts that the console program reads and prints (src/app/Cli.cpp, src/app/Handlers.cpp).
use cannect.Base.{ℕ, ◌≡◌, ◌≢◌, ◌↔◌, refl, arith, true, false, some, List, [], ◌∷◌, ◌++◌}
use cannect.Dispatcher.{same_name}
use cannect.Socket as Socket
use cannect.App.Text.{Text, codes, ok, err, invalid_argument, out_of_range}
use cannect.App.Numbers.{stoul, parse_u8, parse_u32}
use cannect.App.Printing.{emit, print_hex_bytes, print_address}
use cannect.App.Printing.Addresses.{print_address_ambiguous}
use cannect.App.Reader.{read_vector_until_timeout}
use cannect.App.Reader.Bytes.{at_timeout, words, read_vector-print_hex_bytes}
use cannect.App.Options.{parse_options}
use cannect.App.Options.Spelled.{
  Setting, iface, node, spelled_all, sends, ending_args, parse_options-spelled,
}
use cannect.App.Interface.{create_interface}
use cannect.App.Interface.Split.{create_interface_iff}

decimal : stoul (codes " +42") ≡ ok 42
unfolding stoul
decimal = refl

hexadecimal : stoul (codes "0xFf") ≡ ok 255
unfolding stoul
hexadecimal = refl

octal : stoul (codes "017") ≡ ok 15
unfolding stoul
octal = refl

-- Without a hexadecimal digit behind it, 0x is an octal zero.
zero_x : stoul (codes "0xg") ≡ ok 0
unfolding stoul
zero_x = refl

no_number : stoul (codes "can0") ≡ err invalid_argument
unfolding stoul
no_number = refl

too_large : stoul (codes "18446744073709551616") ≡ err out_of_range
unfolding stoul
too_large = refl

negated : parse_u8 (codes "-1") ≡ ok 255
unfolding parse_u8 stoul
negated = refl

wrapped : parse_u8 (codes "256") ≡ ok 0
unfolding parse_u8 stoul
wrapped = refl

timeout : parse_u32 (codes "5000") ≡ ok 5000
unfolding parse_u32 stoul
timeout = refl

printed_bytes : print_hex_bytes (0x10 ∷ 0xab ∷ 7 ∷ []) ≡ codes "0x10 0xab 0x7"
unfolding print_hex_bytes emit
printed_bytes = refl

printed_address : print_address (0x12 ∷ 0x34 ∷ 0 ∷ 0x20 ∷ []) ≡ codes "0x2003412"
unfolding print_address emit
printed_address = refl

timeout_ends : at_timeout (codes "--timeout" ∷ codes "50" ∷ []) ≡ true
unfolding same_name
timeout_ends = refl

read_vector-print_hex_bytes_example :
    read_vector_until_timeout (record {
      rest =
          words (print_hex_bytes (0x10 ∷ 0xab ∷ 7 ∷ [])) ++ (codes "--timeout" ∷ codes "50" ∷ []);
      timeout_ms = 200;
    })
    ≡ ok (
      0x10 ∷ 0xab ∷ 7 ∷ [],
      record { rest = codes "--timeout" ∷ codes "50" ∷ []; timeout_ms = 200 },
    )
read_vector-print_hex_bytes_example =
    read_vector-print_hex_bytes (0x10 ∷ 0xab ∷ 7 ∷ []) (codes "--timeout" ∷ codes "50" ∷ []) 200
      (omega arith) (omega arith) timeout_ends

-- 0x1 and 0x23 look like 0x12 and 0x3.
print_address_ambiguous_example :
    (print_address (0x23 ∷ 0x1 ∷ 0 ∷ 0 ∷ []) ≡ print_address (0x3 ∷ 0x12 ∷ 0 ∷ 0 ∷ []))
    × ◌≢◌ {A = List ℕ} (0x23 ∷ 0x1 ∷ 0 ∷ 0 ∷ []) (0x3 ∷ 0x12 ∷ 0 ∷ 0 ∷ [])
print_address_ambiguous_example =
    print_address_ambiguous 1 2 3 (0 ∷ 0 ∷ []) (omega arith) (omega arith) (omega arith)
      (omega arith) (omega arith)

abbrev settings : List Setting
settings =
    node false (codes "0x41") 65
    ∷ iface true (codes "socketcan:can0")
    ∷ node true (codes "7") 7
    ∷ []

parse_options-spelled_example :
    parse_options (
      codes "cannect"
      ∷ spelled_all settings
          (ending_args (sends false (codes "telemetry") (codes "2" ∷ codes "7" ∷ []))))
    ≡ ok (record {
      iface_spec = codes "socketcan:can0";
      output_file = [];
      local_node = 7;
      show_help = false;
      has_send_command = true;
      send_arg_index = some 8;
    })
unfolding parse_u8 stoul
parse_options-spelled_example =
    parse_options-spelled (codes "cannect") settings
      (sends false (codes "telemetry") (codes "2" ∷ codes "7" ∷ [])) (refl, (tt, (refl, tt)))

create_interface_iff_example :
    (create_interface (codes "socketcan:can0:1") ≡ ok (Socket.new (codes "can0:1")))
    ↔ (◌≡◌ {A = Text} (codes "socketcan:can0:1") (codes "socketcan:can0:1"))
create_interface_iff_example = create_interface_iff (codes "socketcan:can0:1") (codes "can0:1")
