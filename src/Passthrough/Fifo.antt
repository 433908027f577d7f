-- ===== src/Passthrough/Fifo.antt =====
-- The walk of `spassthrough_queue_output` of src/spassthrough.c to the end of its list.
use mathlib.Core.Path.{subst}
use fastvideo.Buffers.{done, is_ready}
use fastvideo.Prelude.{
  ℕ, zero, suc, ◌<◌, true, List, [], ◌∷◌, ◌++◌, Option, none, some, length, get_elem?, set, ◌≡◌,
  ◌≢◌, refl, sym, ◌∙◌, arith, length-set, get_elem?-set_self, get_elem?-set_ne,
}
use fastvideo.Passthrough.{Buffer}
use fastvideo.Passthrough.Queue.{link_last}
use fastvideo.Passthrough.Dequeue.{Frame}
use fastvideo.Passthrough.Linked.{
  frame_of, Apart, Linked, ready_count, ready_count-set, get_elem?-lt,
}

-- What the walk leaves: the new buffer is the last of the list, and only a link of the list has changed.
pub record Appended (bs bs' : List Buffer) (ptr : Option ℕ) (es : List (ℕ × Frame)) (new : ℕ)
    (f : Frame) : Type 0 where
  pub linked : Linked bs' ptr (es ++ ((new, f) ∷ []))
  pub same_length : length bs' ≡ length bs
  pub same_count : ready_count bs' ≡ ready_count bs
  pub same_else : (j : ℕ) → Apart j es → get_elem? bs' j ≡ get_elem? bs j

Apart-append :
    (j new : ℕ) (f : Frame) (es : List (ℕ × Frame))
    → Apart j es
    → new ≢ j
    → Apart j (es ++ ((new, f) ∷ []))
Apart-append j new f [] apart ne = (ne, tt)
Apart-append j new f ((i, g) ∷ es) (h, apart) ne = (h, Apart-append j new f es apart ne)

module _ (new : ℕ) (c : Buffer) where
  pub link_last-Appended :
      (fuel : ℕ) (bs : List Buffer) (i : ℕ) (g : Frame) (es : List (ℕ × Frame))
      → length es < fuel
      → get_elem? bs new ≡ some c
      → is_ready c.state ≡ true
      → c.next ≡ none
      → Apart new ((i, g) ∷ es)
      → Linked bs (some i) ((i, g) ∷ es)
      → (bs' : List Buffer) × (link_last fuel bs i new ≡ done bs')
        × Appended bs bs' (some i) ((i, g) ∷ es) new (frame_of c)
  unfolding link_last
  link_last-Appended zero bs i g es short found waits last ne l = absurd (omega arith)
  link_last-Appended (suc fuel) bs i g [] short found waits last (ne, tt)
        (e, b, here, bwaits, same, apart, ends) =
      (
        set bs i b',
        rw (link_last, here, ends),
        record {
          linked = (
            refl,
            b',
            get_elem?-set_self bs i b' (get_elem?-lt bs i b here),
            bwaits,
            same,
            (ne_new, tt),
            (refl, c, get_elem?-set_ne bs b' ne ∙ found, waits, refl, tt, last),
          );
          same_length = length-set bs i b';
          same_count = omega (arith, ready_count-set bs i b b' here);
          same_else = λ j h. get_elem?-set_ne bs b' h.0;
        },
      )
    where
      ne_new : new ≢ i
      ne_new k = ne (sym k)

      b' : Buffer
      b' = record b { next = some new }
  link_last-Appended (suc fuel) bs i g ((k, h) ∷ es) short found waits last (ne, apart_new)
        (e, b, here, bwaits, same, apart, rest) =
      let (bs', ran, a) =
        link_last-Appended fuel bs k h es (omega (arith, short)) found waits last apart_new
          (subst (λ ptr. Linked bs ptr ((k, h) ∷ es)) rest.0 rest) in
      (
        bs',
        rw (link_last, here, rest.0) ran,
        record {
          linked = (
            refl,
            b,
            a.same_else i ((λ x. apart.0 x), apart.1) ∙ here,
            bwaits,
            same,
            Apart-append i new (frame_of c) ((k, h) ∷ es) apart (λ x. ne (sym x)),
            subst (λ ptr. Linked bs' ptr (((k, h) ∷ es) ++ ((new, frame_of c) ∷ []))) (sym rest.0)
                a.linked,
          );
          same_length = a.same_length;
          same_count = a.same_count;
          same_else = λ j off. a.same_else j off.1;
        },
      )
