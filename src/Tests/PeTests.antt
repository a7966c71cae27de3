-- ===== src/Tests/PeTests.antt =====
-- src/gem/pe_arm64x.c at a small image: two sections, a range of ARM64EC and one of x64 code, an entry
-- range in the latter, and a redirection from it to the former.
use metal_sharp_wine_runtime.Prelude.{
  ℕ, ◌≡◌, ◌≢◌, refl, Bool, true, false, ◌&&◌, none, some, List, [], ◌∷◌, ◌++◌, replicate, ltb,
  and-eq_true, ltb→lt,
}
use metal_sharp_wine_runtime.Context.Words.{put16, put32, put64}
use metal_sharp_wine_runtime.Pe.{
  rva_arm64ec, rva_x64, done, fault, Image, Allocations, ◌>>=◌, ◌>>◌, refuse_if, expect, fail_as,
}
use metal_sharp_wine_runtime.Pe.Bytes.{IsBytes}
use metal_sharp_wine_runtime.Pe.Parse.{parse_image}
use metal_sharp_wine_runtime.Pe.Parse.Parsed.{Parsed, parse_image-Parsed, parse_image-ne-fault}

are_bytes : List ℕ → Bool
are_bytes [] = true
are_bytes (b ∷ bs) = ltb b 256 && are_bytes bs

are_bytes-IsBytes : (bs : List ℕ) → are_bytes bs ≡ true → IsBytes bs
unfolding are_bytes
are_bytes-IsBytes [] h = tt
are_bytes-IsBytes (b ∷ bs) h =
    let (small, rest) = and-eq_true (ltb b 256) (are_bytes bs) h in
    (ltb→lt b 256 small, are_bytes-IsBytes bs rest)

abbrev pub zeros : ℕ → List ℕ
zeros n = replicate n 0

-- The DOS header, the PE signature and the COFF header.
abbrev pub front : List ℕ
front =
    0x4D ∷ 0x5A ∷ zeros 58
    ++ (put32 64
        ++ (put32 0x4550 ++ (put16 0xA64E ++ (put16 2 ++ (zeros 12 ++ (put16 200 ++ put16 0))))))

-- The optional header, with the directory of the load configuration at 0x300.
abbrev pub optional : List ℕ
optional =
    put16 0x20B
    ++ (zeros 14
        ++ (put32 0x210
            ++ (zeros 4
                ++ (put64 0x10000
                    ++ (put32 16
                        ++ (put32 16
                            ++ (zeros 16
                                ++ (put32 0x1000
                                    ++ (put32 368
                                        ++ (zeros 44
                                            ++ (put32 11
                                                ++ (zeros 80
                                                    ++ (put32 0x300 ++ put32 0xD0)))))))))))))

abbrev pub section_row : ℕ → ℕ → ℕ → ℕ → ℕ → List ℕ
section_row size address raw_size raw_pointer characteristics =
    zeros 8
    ++ (put32 size
        ++ (put32 address
            ++ (put32 raw_size ++ (put32 raw_pointer ++ (zeros 12 ++ put32 characteristics)))))

-- The load configuration of 208 bytes, the CHPE metadata of 80 and the tables.
abbrev pub body : List ℕ
body =
    put32 0xD0
    ++ (zeros 196
        ++ (put64 0x103D0
            ++ (put32 1
                ++ (put32 0x420
                    ++ (put32 2
                        ++ (put32 0x430
                            ++ (put32 0x43C
                                ++ (zeros 28
                                    ++ (put32 1
                                        ++ (put32 1
                                            ++ (zeros 24
                                                ++ (put32 0x201
                                                    ++ (put32 0x20
                                                        ++ (put32 0x222
                                                            ++ (put32 0x10
                                                            ++ (put32 0x220
                                                            ++ (put32 0x228
                                                            ++ (put32 0x224
                                                            ++ (put32 0x228
                                                            ++ put32 0x200)))))))))))))))))))

abbrev pub image_bytes : List ℕ
image_bytes =
    front
    ++ (optional
        ++ (section_row 0x40 0x200 0 0 0x60000020
            ++ (section_row 0x200 0x300 324 368 0x40000040 ++ body)))

abbrev pub allocate_all : Allocations
allocate_all = record {
  image_allocated = true;
  sections_allocated = true;
  code_ranges_allocated = true;
  entry_ranges_allocated = true;
  redirections_allocated = true;
}

abbrev pub parsed_image : Image
parsed_image = record {
  summary = record {
    machine = 0xA64E;
    section_count = 2;
    image_base = 0x10000;
    size_of_image = 0x1000;
    size_of_headers = 368;
    address_of_entry_point = 0x210;
    load_config_rva = 0x300;
    load_config_size = 0xD0;
    chpe_metadata_rva = 0x3D0;
    chpe_metadata_version = 1;
    code_range_count = 2;
    entry_range_count = 1;
    redirection_count = 1;
  };
  byte_count = 692;
  size_of_headers = 368;
  sections =
      record {
        virtual_address = 0x200;
        virtual_size = 0x40;
        raw_size = 0;
        raw_pointer = 0;
        characteristics = 0x60000020;
      }
      ∷ record {
        virtual_address = 0x300;
        virtual_size = 0x200;
        raw_size = 324;
        raw_pointer = 368;
        characteristics = 0x40000040;
      }
      ∷ [];
  code_ranges =
      record { start_rva = 0x200; end_rva = 0x220; isa = rva_arm64ec }
      ∷ record { start_rva = 0x220; end_rva = 0x230; isa = rva_x64 }
      ∷ [];
  entry_ranges = record { start_rva = 0x220; end_rva = 0x228; entry_point_rva = 0x224 } ∷ [];
  redirections = record { source_rva = 0x228; destination_rva = 0x200 } ∷ [];
}

pub image_bytes-IsBytes : IsBytes image_bytes
unfolding are_bytes put16 put32 put64
image_bytes-IsBytes = are_bytes-IsBytes image_bytes refl

pub parse_run : parse_image allocate_all (some image_bytes) 0 false none true ≡ done parsed_image
unfolding parse_image ◌>>=◌ ◌>>◌ refuse_if expect fail_as put16 put32 put64
parse_run = refl

parse_image-Parsed_example : Parsed image_bytes false parsed_image
parse_image-Parsed_example =
    parse_image-Parsed allocate_all image_bytes 0 false none true image_bytes-IsBytes parse_run

parse_image-ne-fault_example : parse_image allocate_all (some image_bytes) 0 false none true ≢ fault
parse_image-ne-fault_example =
    parse_image-ne-fault allocate_all image_bytes 0 false none true image_bytes-IsBytes

pub parsed_image-Parsed : Parsed image_bytes false parsed_image
parsed_image-Parsed =
    parse_image-Parsed allocate_all image_bytes 0 false none true image_bytes-IsBytes parse_run
