-- ===== src/Kmalloc/Put.antt =====
-- A page with one of its blocks put back: its words, its pageref and its blocks in use.
use os161_testbed.Common.{
  ℕ, ◌+◌, ◌*◌, ◌/◌, ◌%◌, ◌<◌, ◌≤◌, ◌≡◌, ◌≢◌, ◌⊎◌, ◌↔◌, inl, inr, refl, sym, ap, ◌∙◌, true, false,
  List, [], ◌∷◌, ◌++◌, arith, ◌==◌, update,
}
use os161_testbed.Kmalloc.{Heap, Pageref, size_of, put_block, release_if_free}
use os161_testbed.Kmalloc.Page.{
  Page, pageref, Chain-same, Apart, Blocks, NotIn, blocks_apart, fill_words-same, put_words,
  put_block-eq,
}
use os161_testbed.Kmalloc.Holds.{IsPage, OnlyAt, size_of-pos}
use os161_testbed.Kmalloc.Change.{with_blocks}
use os161_testbed.Kmalloc.Live.{In, LiveIn, Blocks-in, In-append_right}
use os161_testbed.Kmalloc.Alloc.{most_blocks, Blocks-Headed}
use os161_testbed.Kmalloc.Back.{
  remove, length-remove, NotIn-left, Blocks-back, In-remove, Blocks-right,
}

-- The page with the block at offset x free again.
abbrev pub back : Page → (x : ℕ) → Page
back p x = with_blocks p (x ∷ p.free) (remove x p.used)

module _ (h : Heap) (p : Page) (x : ℕ) (ok : IsPage h.word h.refs h.roots.ram.firstpaddr p)
    (held : In x p.used) (top : h.roots.ram.firstpaddr ≤ 512 * 1024 * 1024) where
  size_pos : (16 ≤ size_of p.blk) × (size_of p.blk ≤ 2048)
  size_pos = size_of-pos p.blk ok.blk

  pub fit : (x + size_of p.blk ≤ 4096) × (x % size_of p.blk ≡ 0)
  fit =
      Blocks-in (size_of p.blk) x (p.free ++ p.used) ok.blocks
        (In-append_right x p.free p.used held)

  pub new_words : ℕ → ℕ
  new_words =
      put_words p.page p.blk ok.aligned (omega (arith, ok.high)) (omega (arith, ok.low)) ok.blk x
        p.free h.word

  unfoldable pub new_refs : ℕ → Pageref
  new_refs = update h.refs p.ptr (pageref p.page p.blk (x ∷ p.free))

  unfoldable pub after_put : Heap
  after_put = record h { word = new_words; refs = new_refs }

  pub put_block-eq-release : put_block p.ptr (p.page + x) h ≡ release_if_free p.ptr p.blk after_put
  unfolding after_put new_words new_refs
  put_block-eq-release =
      put_block-eq p.page p.blk ok.aligned (omega (arith, ok.high)) (omega (arith, ok.low)) ok.blk h
        p.ptr x p.free ok.ref (omega (arith, fit, size_pos)) fit.1
        (Blocks-Headed (size_of p.blk) p.free p.used (omega (arith, size_pos)) ok.blocks)
        (NotIn-left (size_of p.blk) x p.free p.used ok.blocks held)
        (omega (arith, ok.full, most_blocks p.blk ok.blk))

  -- only the words of the block are new
  same_words :
      (a : ℕ) → (a < p.page + x) ⊎ (p.page + x + size_of p.blk ≤ a) → new_words a ≡ h.word a
  unfolding new_words
  same_words a o =
      let quarter : 4 * (size_of p.blk / 4) ≤ size_of p.blk = omega arith in
      let ne : (p.page + x == a) ≡ false = ground (arith, size_pos) in
      rw ne (fill_words-same (size_of p.blk / 4) (p.page + x) h.word a (wider o))
    where
      wider :
          (a < p.page + x) ⊎ (p.page + x + size_of p.blk ≤ a)
          → (a < p.page + x) ⊎ (p.page + x + 4 * (size_of p.blk / 4) ≤ a)
      wider (inl lt) = inl lt
      wider (inr le) = inr (omega arith)

  pub put-OnlyAt : OnlyAt p.page p.ptr h.word new_words h.refs new_refs
  unfolding new_refs
  put-OnlyAt = record {
    words = λ a o. same_words a (outside a o);
    pagerefs = λ q ne. let e : (p.ptr == q) ≡ false = ground arith in rw e refl;
  }
    where
      outside :
          (a : ℕ)
          → (a < p.page) ⊎ (p.page + 4096 ≤ a)
          → (a < p.page + x) ⊎ (p.page + x + size_of p.blk ≤ a)
      outside a (inl lt) = inl (omega arith)
      outside a (inr le) = inr (omega (arith, fit))

  free-Apart :
      (xs : List ℕ)
      → NotIn x xs
      → Blocks (size_of p.blk) (xs ++ p.used)
      → Apart h.word new_words p.page (size_of p.blk) xs
  free-Apart [] new blocks = tt
  free-Apart (y ∷ ys) new blocks = (
    same_words (p.page + y) (
        beside (
          blocks_apart (size_of p.blk) x y (omega (arith, size_pos)) fit.1 blocks.1
            (λ e. new.0 (sym e)))),
    free-Apart ys new.1 blocks.3,
  )
    where
      beside :
          (x + size_of p.blk ≤ y) ⊎ (y + size_of p.blk ≤ x)
          → (p.page + y < p.page + x) ⊎ (p.page + x + size_of p.blk ≤ p.page + y)
      beside (inl le) = inr (omega arith)
      beside (inr le) = inl (omega (arith, size_pos))

  pub back-IsPage : IsPage new_words new_refs h.roots.ram.firstpaddr (back p x)
  unfolding new_words new_refs
  back-IsPage = record {
    aligned = ok.aligned;
    low = ok.low;
    high = ok.high;
    blk = ok.blk;
    ref = (let e : (p.ptr == p.ptr) ≡ true = ground arith in rw e refl);
    chain = (
      (let e : (p.page + x == p.page + x) ≡ true = ground arith in rw e refl),
      Chain-same h.word new_words p.page (size_of p.blk) p.free
          (free-Apart p.free (NotIn-left (size_of p.blk) x p.free p.used ok.blocks held) ok.blocks)
          ok.chain,
    );
    blocks = Blocks-back (size_of p.blk) x p.free p.used ok.blocks held;
    full = omega (arith, ok.full, length-remove x p.used held);
  }

  pub back-LiveIn : (a s : ℕ) → LiveIn (back p x) a s ↔ ((a ≢ p.page + x) × LiveIn p a s)
  back-LiveIn a s = (to, from)
    where
      in_used : (y : ℕ) → In y (remove x p.used) ↔ ((y ≢ x) × In y p.used)
      in_used y =
          In-remove (size_of p.blk) x y p.used
            (Blocks-right (size_of p.blk) p.free p.used ok.blocks)

      to : LiveIn (back p x) a s → (a ≢ p.page + x) × LiveIn p a s
      to l =
          let i = (in_used l.offset).0 l.held in
          (
            (λ e. i.0 (omega (arith, e, l.address))),
            record { offset = l.offset; held = i.1; address = l.address; size = l.size },
          )

      from : (a ≢ p.page + x) × LiveIn p a s → LiveIn (back p x) a s
      from (ne, l) = record {
        offset = l.offset;
        held = (in_used l.offset).1 ((λ e. ne (l.address ∙ ap (λ o. p.page + o) e)), l.held);
        address = l.address;
        size = l.size;
      }
