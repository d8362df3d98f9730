-- ===== src/Machine/Decode.antt =====
-- NachOS-4.0/code/machine/mipssim.h and `Instruction::Decode` of NachOS-4.0/code/machine/mipssim.cc.
use hcmus_csc10007_operating.Common.{ℕ, List, [], ◌∷◌, get_or, bit_and, bit_or, ◌==◌, if◌then◌else◌}
use hcmus_csc10007_operating.Common.Word.{truthy, shr32}

-- The OP_ numbers; `special` and `bcond` are the table's marks for further decoding.
pub data OpCode : Type 0 where
  op_add op_addi op_addiu op_addu op_and op_andi : OpCode
  op_beq op_bgez op_bgezal op_bgtz op_blez op_bltz : OpCode
  op_bltzal op_bne op_div op_divu op_j op_jal : OpCode
  op_jalr op_jr op_lb op_lbu op_lh op_lhu : OpCode
  op_lui op_lw op_lwl op_lwr op_mfhi op_mflo : OpCode
  op_mthi op_mtlo op_mult op_multu op_nor op_or : OpCode
  op_ori op_rfe op_sb op_sh op_sll op_sllv : OpCode
  op_slt op_slti op_sltiu op_sltu op_sra op_srav : OpCode
  op_srl op_srlv op_sub op_subu op_sw op_swl : OpCode
  op_swr op_xor op_xori op_syscall op_unimp op_res : OpCode
  special bcond : OpCode

pub data Format : Type 0 where
  ifmt jfmt rfmt : Format

pub record OpInfo : Type 0 where
  pub op_code : OpCode
  pub format : Format

abbrev info : OpCode → Format → OpInfo
info o f = record { op_code = o; format = f }

-- `opTable`, by bits 31:26 of the instruction.
abbrev pub op_table : List OpInfo
op_table =
    info special rfmt
    ∷ info bcond ifmt
    ∷ info op_j jfmt
    ∷ info op_jal jfmt
    ∷ info op_beq ifmt
    ∷ info op_bne ifmt
    ∷ info op_blez ifmt
    ∷ info op_bgtz ifmt
    ∷ info op_addi ifmt
    ∷ info op_addiu ifmt
    ∷ info op_slti ifmt
    ∷ info op_sltiu ifmt
    ∷ info op_andi ifmt
    ∷ info op_ori ifmt
    ∷ info op_xori ifmt
    ∷ info op_lui ifmt
    ∷ info op_unimp ifmt
    ∷ info op_unimp ifmt
    ∷ info op_unimp ifmt
    ∷ info op_unimp ifmt
    ∷ info op_res ifmt
    ∷ info op_res ifmt
    ∷ info op_res ifmt
    ∷ info op_res ifmt
    ∷ info op_res ifmt
    ∷ info op_res ifmt
    ∷ info op_res ifmt
    ∷ info op_res ifmt
    ∷ info op_res ifmt
    ∷ info op_res ifmt
    ∷ info op_res ifmt
    ∷ info op_res ifmt
    ∷ info op_lb ifmt
    ∷ info op_lh ifmt
    ∷ info op_lwl ifmt
    ∷ info op_lw ifmt
    ∷ info op_lbu ifmt
    ∷ info op_lhu ifmt
    ∷ info op_lwr ifmt
    ∷ info op_res ifmt
    ∷ info op_sb ifmt
    ∷ info op_sh ifmt
    ∷ info op_swl ifmt
    ∷ info op_sw ifmt
    ∷ info op_res ifmt
    ∷ info op_res ifmt
    ∷ info op_swr ifmt
    ∷ info op_res ifmt
    ∷ info op_unimp ifmt
    ∷ info op_unimp ifmt
    ∷ info op_unimp ifmt
    ∷ info op_unimp ifmt
    ∷ info op_res ifmt
    ∷ info op_res ifmt
    ∷ info op_res ifmt
    ∷ info op_res ifmt
    ∷ info op_unimp ifmt
    ∷ info op_unimp ifmt
    ∷ info op_unimp ifmt
    ∷ info op_unimp ifmt
    ∷ info op_res ifmt
    ∷ info op_res ifmt
    ∷ info op_res ifmt
    ∷ info op_res ifmt
    ∷ []

-- `specialTable`, by the "funct" field.
abbrev pub special_table : List OpCode
special_table =
    op_sll ∷ op_res ∷ op_srl ∷ op_sra ∷ op_sllv ∷ op_res ∷ op_srlv ∷ op_srav ∷ op_jr ∷ op_jalr
    ∷ op_res ∷ op_res ∷ op_syscall ∷ op_unimp ∷ op_res ∷ op_res ∷ op_mfhi ∷ op_mthi ∷ op_mflo
    ∷ op_mtlo ∷ op_res ∷ op_res ∷ op_res ∷ op_res ∷ op_mult ∷ op_multu ∷ op_div ∷ op_divu ∷ op_res
    ∷ op_res ∷ op_res ∷ op_res ∷ op_add ∷ op_addu ∷ op_sub ∷ op_subu ∷ op_and ∷ op_or ∷ op_xor
    ∷ op_nor ∷ op_res ∷ op_res ∷ op_slt ∷ op_sltu ∷ op_res ∷ op_res ∷ op_res ∷ op_res ∷ op_res
    ∷ op_res ∷ op_res ∷ op_res ∷ op_res ∷ op_res ∷ op_res ∷ op_res ∷ op_res ∷ op_res ∷ op_res
    ∷ op_res ∷ op_res ∷ op_res ∷ op_res ∷ op_res ∷ []

-- The C type `char` of `opCode` and of the three registers plays no part: all are below 128.
pub record Instruction : Type 0 where
  pub value : ℕ
  pub op_code : OpCode
  pub rs : ℕ
  pub rt : ℕ
  pub rd : ℕ
  pub extra : ℕ

abbrev immediate : ℕ → ℕ
immediate value =
    let extra = bit_and value 0xffff in
    if truthy (bit_and extra 0x8000) then bit_or extra 0xffff0000 else extra

abbrev decode_extra : Format → ℕ → ℕ
decode_extra ifmt value = immediate value
decode_extra rfmt value = bit_and (shr32 value 6) 0x1f
decode_extra jfmt value = bit_and value 0x3ffffff

abbrev decode_bcond : ℕ → OpCode
decode_bcond i =
    if i == 0
    then op_bltz
    else if i == 0x10000
    then op_bgez
    else if i == 0x100000
    then op_bltzal
    else if i == 0x110000
    then op_bgezal
    else op_unimp

abbrev decode_op : OpCode → ℕ → OpCode
decode_op special value = get_or special_table (bit_and value 0x3f) op_res
decode_op bcond value = decode_bcond (bit_and value 0x1f0000)
decode_op op value = op

-- Both table indices are below 64, so the defaults are never read.
unfoldable pub decode : ℕ → Instruction
decode value =
    let op_ptr = get_or op_table (bit_and (shr32 value 26) 0x3f) (info op_res ifmt) in
    record {
      value = value;
      op_code = decode_op op_ptr.op_code value;
      rs = bit_and (shr32 value 21) 0x1f;
      rt = bit_and (shr32 value 16) 0x1f;
      rd = bit_and (shr32 value 11) 0x1f;
      extra = decode_extra op_ptr.format value;
    }
