-- ===== src/Sfs/Inode/Layout.antt =====
-- struct sfs_dinode of os161/kern/include/kern/sfs.h as the bytes of a block. The source hands the struct
-- itself to the block layer: this is its layout in the memory of the machine, which is big-endian.
use os161_testbed.Common.{
  ℕ, zero, suc, ◌+◌, ◌*◌, ◌/◌, ◌%◌, ◌^◌, ◌<◌, ◌≡◌, refl, ap, ◌∙◌, subst, List, [], ◌∷◌, ◌++◌,
  length, drop, get_or, arith, length-append,
}
use os161_testbed.Common.Words.{get_word}
use os161_testbed.Sfs.State.{Dinode}

-- the bytes of a list of 32-bit words
abbrev pub bytes_of_words : List ℕ → List ℕ
bytes_of_words [] = []
bytes_of_words (w ∷ ws) =
    (w / 2 ^ 24 % 256) ∷ (w / 2 ^ 16 % 256) ∷ (w / 2 ^ 8 % 256) ∷ (w % 256) ∷ bytes_of_words ws

-- the first `n` words of a block, and what follows them
abbrev pub words_of_bytes : ℕ → List ℕ → List ℕ
words_of_bytes zero bytes = []
words_of_bytes (suc n) bytes = get_word bytes 0 ∷ words_of_bytes n (drop 4 bytes)

abbrev pub after_words : ℕ → List ℕ → List ℕ
after_words zero bytes = bytes
after_words (suc n) bytes = after_words n (drop 4 bytes)

-- sfi_size, sfi_type and sfi_linkcount in one word, sfi_direct, sfi_indirect
abbrev pub words_of_inode : Dinode → List ℕ
words_of_inode i = i.size ∷ (i.kind * 2 ^ 16 + i.linkcount) ∷ (i.direct ++ i.indirect ∷ [])

abbrev pub bytes_of_inode : Dinode → List ℕ
bytes_of_inode i = bytes_of_words (words_of_inode i) ++ i.waste

abbrev pub inode_of_bytes : List ℕ → Dinode
inode_of_bytes bytes = record {
  size = get_word bytes 0;
  kind = get_word bytes 1 / 2 ^ 16;
  linkcount = get_word bytes 1 % 2 ^ 16;
  direct = words_of_bytes 15 (drop 8 bytes);
  indirect = get_word bytes 17;
  waste = after_words 18 bytes;
}

abbrev pub Small : List ℕ → Type 0
Small [] = Unit
Small (w ∷ ws) = (w < 2 ^ 32) × Small ws

-- Every field fits its place.
pub record IsInode (i : Dinode) : Type 0 where
  pub size : i.size < 2 ^ 32
  pub kind : i.kind < 2 ^ 16
  pub linkcount : i.linkcount < 2 ^ 16
  pub directs : length i.direct ≡ 15
  pub direct : Small i.direct
  pub indirect : i.indirect < 2 ^ 32
  pub waste : length i.waste ≡ 440

word_eq :
    (w : ℕ)
    → w < 2 ^ 32
    → ((w / 2 ^ 24 % 256 * 256 + w / 2 ^ 16 % 256) * 256 + w / 2 ^ 8 % 256) * 256 + w % 256 ≡ w
word_eq w h = omega arith

get_word-words :
    (ws rest : List ℕ) (j : ℕ)
    → Small ws
    → j < length ws
    → get_word (bytes_of_words ws ++ rest) j ≡ get_or ws j 0
get_word-words [] rest j small h = absurd (omega arith)
get_word-words (w ∷ ws) rest zero small h = word_eq w small.0
get_word-words (w ∷ ws) rest (suc j) small h = get_word-words ws rest j small.1 (omega arith)

words-bytes :
    (ws vs rest : List ℕ)
    → Small ws
    → words_of_bytes (length ws) (bytes_of_words (ws ++ vs) ++ rest) ≡ ws
words-bytes [] vs rest small = refl
words-bytes (w ∷ ws) vs rest small = λ i. word_eq w small.0 i ∷ words-bytes ws vs rest small.1 i

after-bytes : (ws rest : List ℕ) → after_words (length ws) (bytes_of_words ws ++ rest) ≡ rest
after-bytes [] rest = refl
after-bytes (w ∷ ws) rest = after-bytes ws rest

length-bytes_of_words : (ws : List ℕ) → length (bytes_of_words ws) ≡ 4 * length ws
length-bytes_of_words [] = refl
length-bytes_of_words (w ∷ ws) = omega (arith, length-bytes_of_words ws)

pub length-bytes_of_inode : (i : Dinode) → IsInode i → length (bytes_of_inode i) ≡ 512
length-bytes_of_inode i ok = omega (
  arith,
  ok.directs,
  ok.waste,
  length-append (bytes_of_words (words_of_inode i)) i.waste,
  length-bytes_of_words (words_of_inode i),
  length-append i.direct (i.indirect ∷ []),
)

Small-append : (ws : List ℕ) (v : ℕ) → Small ws → v < 2 ^ 32 → Small (ws ++ v ∷ [])
Small-append [] v small h = (h, tt)
Small-append (w ∷ ws) v small h = (small.0, Small-append ws v small.1 h)

get_or-append : (ws : List ℕ) (v : ℕ) → get_or (ws ++ v ∷ []) (length ws) 0 ≡ v
get_or-append [] v = refl
get_or-append (w ∷ ws) v = get_or-append ws v

module _ (i : Dinode) (ok : IsInode i) where
  abbrev tail_words : List ℕ
  tail_words = i.direct ++ i.indirect ∷ []

  second_word : get_word (bytes_of_inode i) 1 ≡ i.kind * 2 ^ 16 + i.linkcount
  second_word = word_eq (i.kind * 2 ^ 16 + i.linkcount) (omega (arith, ok.kind, ok.linkcount))

  tail-length : length tail_words ≡ 16
  tail-length = omega (arith, ok.directs, length-append i.direct (i.indirect ∷ []))

  indirect-read : get_word (bytes_of_inode i) 17 ≡ i.indirect
  indirect-read =
      get_word-words tail_words i.waste 15 (Small-append i.direct i.indirect ok.direct ok.indirect)
        (omega (arith, tail-length))
      ∙ subst (λ n. get_or tail_words n 0 ≡ i.indirect) ok.directs
          (get_or-append i.direct i.indirect)

  -- An inode whose fields fit their places is read back from the bytes that it is written as.
  pub inode_of_bytes-bytes_of_inode : inode_of_bytes (bytes_of_inode i) ≡ i
  inode_of_bytes-bytes_of_inode =
      inode_eq (word_eq i.size ok.size)
        (ap (λ w. w / 2 ^ 16) second_word ∙ omega (arith, ok.linkcount))
        (ap (λ w. w % 2 ^ 16) second_word ∙ omega (arith, ok.linkcount))
        (subst (λ n. words_of_bytes n (bytes_of_words tail_words ++ i.waste) ≡ i.direct) ok.directs
          (words-bytes i.direct (i.indirect ∷ []) i.waste ok.direct))
        indirect-read
        (subst (λ n. after_words n (bytes_of_words tail_words ++ i.waste) ≡ i.waste) tail-length
          (after-bytes tail_words i.waste))
    where
      inode_eq :
          {i j : Dinode}
          → i.size ≡ j.size
          → i.kind ≡ j.kind
          → i.linkcount ≡ j.linkcount
          → i.direct ≡ j.direct
          → i.indirect ≡ j.indirect
          → i.waste ≡ j.waste
          → i ≡ j
      inode_eq a b c d e f = λ x. record {
        size = a x;
        kind = b x;
        linkcount = c x;
        direct = d x;
        indirect = e x;
        waste = f x;
      }
