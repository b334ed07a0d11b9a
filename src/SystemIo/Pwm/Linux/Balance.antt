-- ===== src/SystemIo/Pwm/Linux/Balance.antt =====
-- linux_pwm.c: the descriptors and blocks that a channel holds.
use artik_sdk.Prelude.{
  ℕ, ◌+◌, ◌-◌, ◌%◌, ◌≡◌, refl, ap, ◌∙◌, true, false, Option, none, some, List, ◌∷◌, inl, inr, arith,
  ◌==◌, if◌then◌else◌, Bool-cases, ltb, ◌⊎◌,
}
use artik_sdk.Prelude.Int.{ℤ, pos, negsuc}
use artik_sdk.Prelude.Counting.{count, remove_one, count-remove_one}
use artik_sdk.Error.{ArtikError, s_ok, e_bad_args, is_ok}
use artik_sdk.SystemIo.Pwm.{Config, PwmData}
use artik_sdk.SystemIo.Pwm.Linux.{
  enable_text, itoa, number, Index, Text, exp, uexp, enb, cycl, Files, os_pwm_uexport, open_files,
  indices, data_of, os_pwm_init, os_pwm_request, os_pwm_release, os_pwm_clean, close_fd,
  os_pwm_ioctl, changed, started, then_, with_duty, os_pwm_set_duty_cycle, os_pwm_enable,
}

-- What a process holds: the same descriptors, as often, and as many blocks.
pub record SameHeld (w v : Files) : Type 0 where
  pub fds : (x : ℕ) → count x w.held ≡ count x v.held
  pub blocks : w.blocks ≡ v.blocks

uexport-SameHeld : (d : PwmData) (i : Index) (w : Files) → SameHeld (os_pwm_uexport d i w).1 w
unfolding os_pwm_uexport remove_one
uexport-SameHeld d i w = record { fds = λ x. ground arith; blocks = ground arith }

ioctl-held :
    (d : PwmData) (i : Index) (t : Text) (w : Files)
    → ((os_pwm_ioctl d i t w).1.held ≡ w.held) × ((os_pwm_ioctl d i t w).1.blocks ≡ w.blocks)
unfolding os_pwm_ioctl
ioctl-held d i t w = ground arith

-- How often a number is one of the four descriptors.
abbrev pub is_fd : ℕ → Option ℕ → ℕ
is_fd x none = 0
is_fd x (some f) = if x == f then 1 else 0

abbrev pub fds_of : ℕ → PwmData → ℕ
fds_of x d = is_fd x d.enb + is_fd x d.cycl + is_fd x d.perd + is_fd x d.polr

open_files_held :
    (d : PwmData) (w : Files)
    → (open_files indices d w).0 ≡ true
    → (x : ℕ)
    → count x (open_files indices d w).2.held ≡ fds_of x (open_files indices d w).1 + count x w.held
unfolding open_files
open_files_held d w h x = ground (arith, h)

open_files_blocks : (d : PwmData) (w : Files) → (open_files indices d w).2.blocks ≡ w.blocks
unfolding open_files
open_files_blocks d w = ground arith

pin_cases : (z : ℤ) → ((n : ℕ) × (z ≡ pos n)) ⊎ ((n : ℕ) × (z ≡ negsuc n))
pin_cases (pos n) = inl (n, refl)
pin_cases (negsuc n) = inr (n, refl)

-- A channel that is initialised holds four more descriptors, those of its data, and two more blocks.
init-held :
    (c c' : Config) (d : PwmData) (w v : Files)
    → os_pwm_init c w ≡ (s_ok, c', v)
    → c'.user_data ≡ some d
    → ((x : ℕ) → count x v.held ≡ fds_of x d + count x w.held) × (v.blocks ≡ w.blocks + 2)
unfolding os_pwm_init is_ok
init-held c c' d w v h e = elim (pin_cases c.pin_num) [
  | inr (n, z) ↦ absurd (ground (arith, z, h))
  | inl (pin, z) ↦
      let u = os_pwm_uexport (data_of pin) exp (record w { blocks = w.blocks + 2 }) in
      let same : SameHeld u.1 (record w { blocks = w.blocks + 2 }) =
        uexport-SameHeld (data_of pin) exp (record w { blocks = w.blocks + 2 }) in
      let all : (open_files indices (data_of pin) u.1).0 ≡ true = ground (arith, z, h) in
      (
        λ x. ground (arith, z, h, e, same.fds x, open_files_held (data_of pin) u.1 all x),
        ground (arith, z, h, e, same.blocks, open_files_blocks (data_of pin) u.1),
      )
]

started-held :
    (c : Config) (d : PwmData) (w : Files)
    → ((started c d w).1.held ≡ w.held) × ((started c d w).1.blocks ≡ w.blocks)
unfolding started
started-held c d w = ground (arith)

close_fd-held :
    (f : Option ℕ) (w : Files) (x : ℕ) → count x (close_fd f w).held ≡ count x w.held - is_fd x f
unfolding close_fd
close_fd-held none w x = omega arith
close_fd-held (some f) w x = count-remove_one x f w.held

clean-held :
    (d : PwmData) (w : Files) (x : ℕ)
    → count x (os_pwm_clean d w).1.held ≡ count x w.held - fds_of x d
unfolding os_pwm_clean
clean-held d w x =
    let w1 = close_fd d.enb w in
    let w2 = close_fd d.cycl w1 in
    let w3 = close_fd d.perd w2 in
    omega (
      arith,
      close_fd-held d.enb w x,
      close_fd-held d.cycl w1 x,
      close_fd-held d.perd w2 x,
      close_fd-held d.polr w3 x,
    )

then_-SameHeld :
    (w : Files) (r : ArtikError × Files) (k : Files → ArtikError × Files)
    → SameHeld r.1 w
    → ((u : Files) → SameHeld (k u).1 u)
    → SameHeld (then_ r k).1 w
unfolding then_
then_-SameHeld w r k a h = elim (Bool-cases (is_ok r.0)) [
  | inl y ↦ rw y (record { fds = λ x. (h r.1).fds x ∙ a.fds x; blocks = (h r.1).blocks ∙ a.blocks })
  | inr n ↦ rw n a
]

ioctl-SameHeld :
    (d : PwmData) (i : Index) (t : Text) (w : Files) → SameHeld (os_pwm_ioctl d i t w).1 w
ioctl-SameHeld d i t w = record {
  fds = λ x. ap (count x) (ioctl-held d i t w).0;
  blocks = (ioctl-held d i t w).1;
}

changed-SameHeld : (d : PwmData) (i : Index) (t : Text) (w : Files) → SameHeld (changed d i t w).1 w
unfolding changed
changed-SameHeld d i t w =
    then_-SameHeld w (then_ (os_pwm_enable d false w) (os_pwm_ioctl d i t)) (os_pwm_enable d true)
      (then_-SameHeld w (os_pwm_enable d false w) (os_pwm_ioctl d i t)
        (ioctl-SameHeld d enb (enable_text false) w) (λ u. ioctl-SameHeld d i t u))
      (λ u. ioctl-SameHeld d enb (enable_text true) u)

clean_blocks : (d : PwmData) (w : Files) → (os_pwm_clean d w).1.blocks ≡ w.blocks - 2
unfolding os_pwm_clean
clean_blocks d w = ground arith

then_-clean :
    (d : PwmData) (v : Files) (r : ArtikError × Files)
    → then_ r (os_pwm_clean d) ≡ (s_ok, v)
    → v ≡ (os_pwm_clean d r.1).1
unfolding then_ is_ok
then_-clean d v (err, w) h = ground (arith, h)

release-held :
    (d : PwmData) (w v : Files)
    → os_pwm_release d w ≡ (s_ok, v)
    → ((x : ℕ) → count x v.held ≡ count x w.held - fds_of x d) × (v.blocks ≡ w.blocks - 2)
unfolding os_pwm_release
release-held d w v h =
    let r =
      then_ (then_ (os_pwm_set_duty_cycle d 0 w) (os_pwm_enable d false)) (os_pwm_uexport d uexp) in
    let same : SameHeld r.1 w =
      then_-SameHeld w (then_ (os_pwm_set_duty_cycle d 0 w) (os_pwm_enable d false))
        (os_pwm_uexport d uexp)
        (then_-SameHeld w (os_pwm_set_duty_cycle d 0 w) (os_pwm_enable d false)
          (changed-SameHeld d cycl (itoa 0) w) (λ u. ioctl-SameHeld d enb (enable_text false) u))
        (λ u. uexport-SameHeld d uexp u) in
    let last : v ≡ (os_pwm_clean d r.1).1 = then_-clean d v r h in
    (
      λ x.
          ap (λ (u : Files). count x u.held) last
          ∙ clean-held d r.1 x
          ∙ ap (λ (n : ℕ). n - fds_of x d) (same.fds x),
      ap (λ (u : Files). u.blocks) last ∙ clean_blocks d r.1 ∙ ap (λ (n : ℕ). n - 2) same.blocks,
    )

-- A channel that is requested and then released, both with success, holds nothing: the process has
-- the descriptors that it had before, each as often, and as many data blocks. The system may answer
-- anything.
pub os_pwm_release-request :
    (c c' : Config) (d : PwmData) (w v u : Files)
    → os_pwm_request c w ≡ (s_ok, c', v)
    → c'.user_data ≡ some d
    → os_pwm_release d v ≡ (s_ok, u)
    → SameHeld u w
unfolding os_pwm_request is_ok
os_pwm_release-request c c' d w v u h e g =
    let i = os_pwm_init (with_duty c) w in
    let began : i ≡ (s_ok, i.1, i.2) = ground (arith, h) in
    let given : i.1.user_data ≡ some d = ground (arith, h, e) in
    let run : v ≡ (started i.1 d i.2).1 = ground (arith, h, e, given) in
    let a = init-held (with_duty c) i.1 d w i.2 began given in
    let s = started-held i.1 d i.2 in
    let r = release-held d v u g in
    record {
      fds = λ x.
          ground (arith, r.0 x, ap (λ (z : Files). count x z.held) run, ap (count x) s.0, a.0 x);
      blocks = ground (arith, r.1, ap (λ (z : Files). z.blocks) run, s.1, a.1);
    }

-- A request with a duty cycle in its period, a polarity that there is and a pin that is not negative:
-- where the channel is exported, the first of its four files can be opened and the second cannot, it
-- answers E_BAD_ARGS, but the first file stays open, and nothing is written behind the export, so
-- that the channel stays exported.
pub os_pwm_request-leak :
    (c : Config) (pin : ℕ) (w : Files) (a b : ℕ) (rest : List (Option ℕ)) (answers : List ℕ)
    → ltb c.period c.duty_cycle ≡ false
    → ltb 1 c.polarity ≡ false
    → c.pin_num ≡ pos pin
    → w.opens ≡ some a ∷ some b ∷ none ∷ rest
    → w.answers ≡ 0 ∷ answers
    → (((os_pwm_request c w).0) ≡ e_bad_args)
      × ((os_pwm_request c w).2.held ≡ b ∷ w.held)
      × ((os_pwm_request c w).2.log ≡ (exp, number (pos (pin % 256))) ∷ w.log)
unfolding os_pwm_request remove_one is_ok
os_pwm_request-leak c pin w a b rest answers p q z o s = ground (arith, p, q, z, o, s)
