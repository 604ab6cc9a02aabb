-- ===== src/ErrorCodes/Table/Fourth.antt =====
-- The assignments of lines 372 to 493 of framework/error_codes.py.
use functional_tests.Base.{List, [], ◌∷◌}
use functional_tests.ErrorCodes.{Code, assign}

abbrev pub fourth_codes : List Code
fourth_codes =
    assign "ISO_DATE_INVALID_ARRAY_INPUT_ERROR" 40536 372
    ∷ assign "ISO_DATE_MISSING_DATE_ERROR" 40539 373
    ∷ assign "DATEFROMSTRING_NON_OBJECT_ERROR" 40540 374
    ∷ assign "DATEFROMSTRING_UNKNOWN_FIELD_ERROR" 40541 375
    ∷ assign "DATEFROMSTRING_MISSING_DATESTRING_ERROR" 40542 376
    ∷ assign "CHANGE_STREAM_NOT_ALLOWED_ERROR" 40573 377
    ∷ assign "FACET_PIPELINE_INVALID_STAGE_ERROR" 40600 378
    ∷ assign "OUT_NOT_LAST_STAGE_ERROR" 40601 379
    ∷ assign "NOT_FIRST_STAGE_ERROR" 40602 380
    ∷ assign "GEO_NEAR_NOT_FIRST_STAGE_ERROR" 40603 381
    ∷ assign "RESUME_TOKEN_MALFORMED_ERROR" 40647 382
    ∷ assign "RESUME_TOKEN_TYPEBITS_WRONG_TYPE_ERROR" 40648 383
    ∷ assign "RESUME_TOKEN_EMPTY_ERROR" 40649 384
    ∷ assign "MULTIPLE_RESUME_OPTIONS_ERROR" 40674 385
    ∷ assign "DATEFROMSTRING_INVALID_FORMAT_TYPE_ERROR" 40684 386
    ∷ assign "DATEFROMSTRING_INVALID_FORMAT_ERROR" 40685 387
    ∷ assign "TRIM_UNKNOWN_FIELD_ERROR" 50694 388
    ∷ assign "TRIM_MISSING_INPUT_ERROR" 50695 389
    ∷ assign "TRIM_WRONG_TYPE_ERROR" 50696 390
    ∷ assign "TRIM_INPUT_TYPE_ERROR" 50699 391
    ∷ assign "TRIM_CHARS_TYPE_ERROR" 50700 392
    ∷ assign "TO_TYPE_ARITY_ERROR" 50723 393
    ∷ assign "CURSOR_SESSION_MISMATCH_ERROR" 50738 394
    ∷ assign "SUBSTR_NEGATIVE_START_ERROR" 50752 395
    ∷ assign "NOT_A_RETRYABLE_WRITE_COMMAND_ERROR" 50768 396
    ∷ assign "KEYSTRING_UNKNOWN_TYPE_ERROR" 50811 397
    ∷ assign "CLUSTERED_NAN_DUPLICATE_ERROR" 50819 398
    ∷ assign "CLUSTERED_INFINITY_DUPLICATE_ERROR" 50826 399
    ∷ assign "RESUME_AFTER_START_AFTER_CONFLICT_ERROR" 50865 400
    ∷ assign "PLAN_CACHE_STATS_COLLECTION_NOT_FOUND_ERROR" 50933 401
    ∷ assign "LOOKUP_SUB_PIPELINE_NOT_ALLOWED_ERROR" 51047 402
    ∷ assign "REGEX_OPTIONS_BEFORE_REGEX_FLAGS_ERROR" 51074 403
    ∷ assign "REGEX_FLAGS_AND_OPTIONS_CONFLICT_ERROR" 51075 404
    ∷ assign "INVALID_DECIMAL_CONVERSION_ERROR" 51080 405
    ∷ assign "NON_NUMERIC_TYPE_ERROR" 51081 406
    ∷ assign "NON_INTEGRAL_POSITION_ERROR" 51082 407
    ∷ assign "INVALID_POSITION_ERROR" 51083 408
    ∷ assign "REGEX_COMPILE_ERROR" 51091 409
    ∷ assign "REGEX_NON_OBJECT_ERROR" 51103 410
    ∷ assign "REGEX_INPUT_TYPE_ERROR" 51104 411
    ∷ assign "REGEX_REGEX_TYPE_ERROR" 51105 412
    ∷ assign "REGEX_OPTIONS_TYPE_ERROR" 51106 413
    ∷ assign "REGEX_OPTIONS_CONFLICT_ERROR" 51107 414
    ∷ assign "REGEX_BAD_OPTION_ERROR" 51108 415
    ∷ assign "REGEX_NULL_BYTE_ERROR" 51109 416
    ∷ assign "REGEX_OPTIONS_NULL_BYTE_ERROR" 51110 417
    ∷ assign "REGEX_BAD_PATTERN_ERROR" 51111 418
    ∷ assign "MERGE_SPARSE_NULL_ON_FIELD_ERROR" 51132 419
    ∷ assign "MERGE_ON_ARRAY_ELEMENT_TYPE_ERROR" 51134 420
    ∷ assign "LET_SYSTEM_VARIABLE_IN_VALUE_ERROR" 51144 421
    ∷ assign "CANNOT_USE_MIN_MAX_ERROR" 51174 422
    ∷ assign "MERGE_INTO_TYPE_ERROR" 51178 423
    ∷ assign "MERGE_UNSUPPORTED_MODE_COMBINATION_ERROR" 51181 424
    ∷ assign "MERGE_NO_MATCHING_UNIQUE_INDEX_ERROR" 51183 425
    ∷ assign "MERGE_ARRAY_ON_FIELD_ERROR" 51185 426
    ∷ assign "MERGE_ON_TYPE_ERROR" 51186 427
    ∷ assign "MERGE_ON_EMPTY_ARRAY_ERROR" 51187 428
    ∷ assign "MERGE_WHEN_MATCHED_TYPE_ERROR" 51191 429
    ∷ assign "UPDATE_C_FIELD_REQUIRES_PIPELINE_ERROR" 51198 430
    ∷ assign "MERGE_LET_WITH_STRING_MODE_ERROR" 51199 431
    ∷ assign "POSITIONAL_ARRAY_CONDITION_ERROR" 51246 432
    ∷ assign "POSITIONAL_INDEX_OUT_OF_BOUNDS_ERROR" 51247 433
    ∷ assign "PROJECT_EMPTY_SUB_PROJECTION_ERROR" 51270 434
    ∷ assign "PROJECT_COMPUTED_FIELD_BANNED_ERROR" 51271 435
    ∷ assign "PROJECT_EMPTY_SPEC_ERROR" 51272 436
    ∷ assign "MERGE_LET_RESERVED_NEW_ERROR" 51273 437
    ∷ assign "NOT_SUPPORTED_ON_STANDALONE_ERROR" 51300 438
    ∷ assign "REPLACE_MISSING_REPLACEMENT_ERROR" 51747 439
    ∷ assign "REPLACE_MISSING_FIND_ERROR" 51748 440
    ∷ assign "REPLACE_MISSING_INPUT_ERROR" 51749 441
    ∷ assign "REPLACE_UNKNOWN_FIELD_ERROR" 51750 442
    ∷ assign "REPLACE_NON_OBJECT_ERROR" 51751 443
    ∷ assign "FILTER_LIMIT_NOT_INTEGRAL_ERROR" 327391 444
    ∷ assign "FILTER_LIMIT_NOT_POSITIVE_ERROR" 327392 445
    ∷ assign "IFNULL_INVALID_ARGS_ERROR" 1257300 446
    ∷ assign "SORT_ARRAY_NON_OBJECT_ARG_ERROR" 2942500 447
    ∷ assign "SORT_ARRAY_UNKNOWN_FIELD_ERROR" 2942501 448
    ∷ assign "SORT_ARRAY_MISSING_INPUT_ERROR" 2942502 449
    ∷ assign "SORT_ARRAY_MISSING_SORTBY_ERROR" 2942503 450
    ∷ assign "SORT_ARRAY_INPUT_NOT_ARRAY_ERROR" 2942504 451
    ∷ assign "SORT_ARRAY_INVALID_SORT_DOC_ERROR" 2942505 452
    ∷ assign "SORT_ARRAY_INVALID_SORT_SCALAR_ERROR" 2942506 453
    ∷ assign "SORT_ARRAY_INVALID_SORT_TYPE_ERROR" 2942507 454
    ∷ assign "RAND_UNEXPECTED_ARG_ERROR" 3040501 455
    ∷ assign "GETFIELD_UNKNOWN_ARG_ERROR" 3041701 456
    ∷ assign "GETFIELD_MISSING_FIELD_ERROR" 3041702 457
    ∷ assign "GETFIELD_MISSING_INPUT_ERROR" 3041703 458
    ∷ assign "GETFIELD_FIELD_NOT_STRING_ERROR" 3041704 459
    ∷ assign "SET_FIELD_NON_OBJECT_ARGUMENT_ERROR" 4161100 460
    ∷ assign "SET_FIELD_UNKNOWN_ARGUMENT_ERROR" 4161101 461
    ∷ assign "SET_FIELD_MISSING_FIELD_ERROR" 4161102 462
    ∷ assign "SET_FIELD_MISSING_VALUE_ERROR" 4161103 463
    ∷ assign "SET_FIELD_INVALID_INPUT_TYPE_ERROR" 4161105 464
    ∷ assign "SET_FIELD_NON_CONST_FIELD_ERROR" 4161106 465
    ∷ assign "SET_FIELD_INVALID_FIELD_TYPE_ERROR" 4161107 466
    ∷ assign "SET_FIELD_FIELD_PATH_ERROR" 4161108 467
    ∷ assign "SET_FIELD_MISSING_INPUT_ERROR" 4161109 468
    ∷ assign "CONVERT_SUBTYPE_NOT_INTEGER_ERROR" 4341106 469
    ∷ assign "CONVERT_SUBTYPE_INVALID_RANGE_ERROR" 4341107 470
    ∷ assign "CONVERT_SUBTYPE_TYPE_ERROR" 4341108 471
    ∷ assign "CONVERT_FORMAT_TYPE_ERROR" 4341114 472
    ∷ assign "CONVERT_MISSING_FORMAT_ERROR" 4341115 473
    ∷ assign "CONVERT_FORMAT_VALUE_ERROR" 4341125 474
    ∷ assign "PLAN_CACHE_STATS_ALL_HOSTS_NOT_SHARDED_ERROR" 4503200 475
    ∷ assign "ACCUMULATOR_NULL_FUNCTION_ERROR" 4544702 476
    ∷ assign "ACCUMULATOR_MISSING_ACCUMULATE_ARGS_ERROR" 4544710 477
    ∷ assign "LET_SYSTEM_VARIABLE_OVERRIDE_ERROR" 4738901 478
    ∷ assign "DIVIDE_BY_ZERO_V2_ERROR" 4848401 479
    ∷ assign "MODULO_BY_ZERO_V2_ERROR" 4848403 480
    ∷ assign "API_VERSION_REQUIRED_ERROR" 4886600 481
    ∷ assign "LET_FIELD_REFERENCE_IN_VALUE_ERROR" 4890500 482
    ∷ assign "FCV_INVALID_VERSION_ERROR" 4926900 483
    ∷ assign "COLLECTION_UUID_NOT_SUPPORTED_AGNOSTIC_ERROR" 4928901 484
    ∷ assign "ARRAY_TO_OBJECT_NULL_BYTE_PAIR_KEY_ERROR" 4940400 485
    ∷ assign "ARRAY_TO_OBJECT_NULL_BYTE_KV_KEY_ERROR" 4940401 486
    ∷ assign "SKIP_INVALID_ARGUMENT_ERROR" 5107200 487
    ∷ assign "LIMIT_INVALID_ARGUMENT_ERROR" 5107201 488
    ∷ assign "ANY_ALL_ELEMENTS_TRUE_PARSE_ERROR" 5159200 489
    ∷ assign "DATEDIFF_NON_OBJECT_ERROR" 5166301 490
    ∷ assign "DATEDIFF_UNKNOWN_FIELD_ERROR" 5166302 491
    ∷ assign "DATEDIFF_MISSING_STARTDATE_ERROR" 5166303 492
    ∷ assign "DATEDIFF_MISSING_ENDDATE_ERROR" 5166304 493
    ∷ []
