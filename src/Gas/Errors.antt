-- ===== src/Gas/Errors.antt =====
-- core/error.go and the error values of core/vm that the state transition compares with.

use okchain.Prelude.{Bool, true, false}

-- `vm_insufficient_balance` is `vm.ErrInsufficientBalance`, another variable than
-- `core.ErrInsufficientBalance`: two calls of `errors.New` are never equal. `vm_other` stands for
-- the other errors of the virtual machine.
pub data Error : Type 0 where
  gas_limit_reached nonce_too_high nonce_too_low : Error
  insufficient_balance insufficient_balance_for_gas : Error
  out_of_gas vm_insufficient_balance vm_other : Error

abbrev pub is_insufficient_balance : Error → Bool
is_insufficient_balance e = elim e [ insufficient_balance ↦ true | _ ↦ false ]
