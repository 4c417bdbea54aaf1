-- ===== src/Syscall/Dispatch.antt =====
-- Which numbers syscall_handler knows, and what it does with the others.
use korus_os.Prelude.{ℕ, zero, suc, ◌<◌, ◌≡◌, refl, none, some, arith, inl, inr, ◌⊎◌, subst, ap}
use korus_os.Machine.{Machine, minus_one}
use korus_os.Syscall.{
  Handler, Regs, init_syscalls, handler_of, run_handler, set_ret, dispatch, syscall_handler,
}

-- The numbers SYS_EXIT to SYS_FREE of syscall.h.
abbrev pub number : Handler → ℕ
number Handler.sys_exit = 0
number Handler.sys_read = 1
number Handler.sys_write = 2
number Handler.sys_open = 3
number Handler.sys_close = 4
number Handler.sys_exec = 5
number Handler.sys_getpid = 7
number Handler.sys_sleep = 8
number Handler.sys_malloc = 9
number Handler.sys_free = 10

-- The handler of a call's number is the call's.
handler_of-number : (h : Handler) → handler_of init_syscalls (number h) ≡ some h
unfolding init_syscalls
handler_of-number Handler.sys_exit = refl
handler_of-number Handler.sys_read = refl
handler_of-number Handler.sys_write = refl
handler_of-number Handler.sys_open = refl
handler_of-number Handler.sys_close = refl
handler_of-number Handler.sys_exec = refl
handler_of-number Handler.sys_getpid = refl
handler_of-number Handler.sys_sleep = refl
handler_of-number Handler.sys_malloc = refl
handler_of-number Handler.sys_free = refl

-- Every number is that of a call, or 6, or above 10.
abbrev NumberCases : ℕ → Type 0
NumberCases num = ((h : Handler) × (number h ≡ num)) ⊎ ((num ≡ 6) ⊎ (10 < num))

number_cases : (num : ℕ) → NumberCases num
number_cases zero = inl (Handler.sys_exit, refl)
number_cases (suc zero) = inl (Handler.sys_read, refl)
number_cases (suc (suc zero)) = inl (Handler.sys_write, refl)
number_cases (suc (suc (suc zero))) = inl (Handler.sys_open, refl)
number_cases (suc (suc (suc (suc zero)))) = inl (Handler.sys_close, refl)
number_cases (suc (suc (suc (suc (suc zero))))) = inl (Handler.sys_exec, refl)
number_cases (suc (suc (suc (suc (suc (suc zero)))))) = inr (inl refl)
number_cases (suc (suc (suc (suc (suc (suc (suc zero))))))) = inl (Handler.sys_getpid, refl)
number_cases (suc (suc (suc (suc (suc (suc (suc (suc zero)))))))) = inl (Handler.sys_sleep, refl)
number_cases (suc (suc (suc (suc (suc (suc (suc (suc (suc zero))))))))) =
    inl (Handler.sys_malloc, refl)
number_cases (suc (suc (suc (suc (suc (suc (suc (suc (suc (suc zero)))))))))) =
    inl (Handler.sys_free, refl)
number_cases (suc (suc (suc (suc (suc (suc (suc (suc (suc (suc (suc n))))))))))) =
    inr (inr (omega arith))

unknown_handler : (num : ℕ) → (num ≡ 6) ⊎ (10 < num) → handler_of init_syscalls num ≡ none
unfolding init_syscalls
unknown_handler num h = ground arith

-- syscall_handler, for any machine and registers: a number of syscall.h that has a handler runs that
-- handler on the registers' arguments and stores its result; 6 and every number above 10 store -1 and
-- leave the machine as it is. 6 and 11 to 15 have names in syscall.h, SYS_FORK and SYS_STAT to SYS_GETTIME,
-- but no handler.
pub syscall_handler-Dispatches :
    (m : Machine) (regs : Regs)
    → let r = syscall_handler init_syscalls m regs in
      ((h : Handler) × (number h ≡ regs.syscall_num)
        × (r ≡ set_ret regs (run_handler h m regs.arg1 regs.arg2 regs.arg3)))
      ⊎ (((regs.syscall_num ≡ 6) ⊎ (10 < regs.syscall_num))
          × (r ≡ some (record regs { ret = minus_one }, m)))
unfolding syscall_handler dispatch
syscall_handler-Dispatches m regs = elim (number_cases regs.syscall_num) [
  | inl (h, e) ↦
      let known : handler_of init_syscalls regs.syscall_num ≡ some h =
        subst (λ n. handler_of init_syscalls n ≡ some h) e (handler_of-number h) in
      inl (h, e, ap (λ o. dispatch o m regs) known)
  | inr k ↦ inr (k, ap (λ o. dispatch o m regs) (unknown_handler regs.syscall_num k))
]
