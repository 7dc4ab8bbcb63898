-- ===== src/Bytecode/Opcodes.antt =====
-- The instructions of core/bytecode.h.
use bombyx.Prelude.{ℕ}

abbrev pub bco_idle : ℕ
bco_idle = 0

abbrev pub bco_var : ℕ
bco_var = 1

abbrev pub bco_varx : ℕ
bco_varx = 2

abbrev pub bco_as_string : ℕ
bco_as_string = 3

abbrev pub bco_as_double : ℕ
bco_as_double = 4

abbrev pub bco_as_var : ℕ
bco_as_var = 5

abbrev pub bco_call : ℕ
bco_call = 6

abbrev pub bco_block_def : ℕ
bco_block_def = 7

abbrev pub bco_block_start : ℕ
bco_block_start = 8

abbrev pub bco_block_end : ℕ
bco_block_end = 9

abbrev pub bco_reverse_stack : ℕ
bco_reverse_stack = 10

abbrev pub bco_param : ℕ
bco_param = 11

abbrev pub bco_paramx : ℕ
bco_paramx = 12

abbrev pub bco_access : ℕ
bco_access = 13

abbrev pub bco_from_json : ℕ
bco_from_json = 14

abbrev pub bco_xcall : ℕ
bco_xcall = 15

abbrev pub bco_set_elem : ℕ
bco_set_elem = 16

abbrev pub bco_add_elem : ℕ
bco_add_elem = 17

abbrev pub bco_set : ℕ
bco_set = 32

abbrev pub bco_add : ℕ
bco_add = 35

abbrev pub bco_sub : ℕ
bco_sub = 36

abbrev pub bco_mul : ℕ
bco_mul = 37

abbrev pub bco_div : ℕ
bco_div = 38

abbrev pub bco_pow : ℕ
bco_pow = 39

abbrev pub bco_mod : ℕ
bco_mod = 40

abbrev pub bco_incr : ℕ
bco_incr = 41

abbrev pub bco_decr : ℕ
bco_decr = 42

abbrev pub bco_unary_minus : ℕ
bco_unary_minus = 43

abbrev pub bco_invert : ℕ
bco_invert = 44

abbrev pub bco_cmp : ℕ
bco_cmp = 45

abbrev pub bco_cmp_not : ℕ
bco_cmp_not = 46

abbrev pub bco_and : ℕ
bco_and = 47

abbrev pub bco_or : ℕ
bco_or = 48

abbrev pub bco_less : ℕ
bco_less = 49

abbrev pub bco_less_eq : ℕ
bco_less_eq = 50

abbrev pub bco_more : ℕ
bco_more = 51

abbrev pub bco_more_eq : ℕ
bco_more_eq = 52

abbrev pub bco_if : ℕ
bco_if = 60

abbrev pub bco_else : ℕ
bco_else = 61

abbrev pub bco_while : ℕ
bco_while = 62

abbrev pub bco_return : ℕ
bco_return = 63

abbrev pub bco_clear_stack : ℕ
bco_clear_stack = 64

abbrev pub bco_ceit : ℕ
bco_ceit = 65

abbrev pub bco_skip : ℕ
bco_skip = 66

abbrev pub bco_print : ℕ
bco_print = 200

abbrev pub bco_microtime : ℕ
bco_microtime = 201

abbrev pub bco_swap : ℕ
bco_swap = 202

abbrev pub bco_as_void : ℕ
bco_as_void = 203
